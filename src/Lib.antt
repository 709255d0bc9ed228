-- ===== src/Lib.antt =====
-- RedNexus AI runs workflows of tool calls for several workspaces. A user submits a workflow,
-- whose steps name capabilities; workers take runs from the database under a lease, prepare one
-- step at a time, call the capability through a gateway, and record how the call ended; steps that
-- change anything wait for the approval of a human.
--
-- This library models the durable platform under rednexus/platform. Each method of the program
-- that is one database transaction is one function from the database to a result and the database
-- that it leaves; an exception leaves the database as it was. A run of the program is a sequence
-- of such transactions, in any order, by any workers and users.
--
-- The modules, and the code that they are about:
--
-- Base: what all modules share: Boolean tests, lists over the native numbers, results with the
-- program's Problem and Python's other exceptions, tables with a primary key, and texts.
--
-- Json: the values of Python's json module, with their comparison.
--
-- Contracts: rednexus/platform/contracts.py: the types of capability contracts and of what users
-- send, their dumps, and the validators of a workflow.
--
-- Env: what the code takes from outside: serialisation and hashing, the JSON Schema validator, the
-- table of decimal digits, identifiers, time stamps and the settings that are durations. They are
-- fields of a record that every operation takes, and no law of them is assumed. Readings of the
-- clock are natural numbers of a fixed unit, one for each reading that a call makes.
--
-- Workflows: rednexus/platform/workflows.py: pointers, bindings, conditions and the input of a
-- step.
--
-- Store: rednexus/platform/storage.py and emit of rednexus/platform/events.py: the rows, the
-- database and the outbox.
--
-- Identity, Registry: rednexus/platform/identity.py and the lookup and validation of
-- rednexus/platform/adapters.py. The registry is an argument, as it is read again before each use.
-- Sessions: log-in, sessions and quotas of rednexus/platform/identity.py, over the database and
-- tables of their own; Revoked is about logout.
--
-- Worker: rednexus/platform/runtime.py. Recover, Claim, Prepare and Finish are the methods of the
-- same names, and tick is in Finish; the gateway's answer is an argument of tick. Authority and
-- Fence are about prepare, finish and claim.
--
-- Platform: rednexus/platform/service.py: Access, Submit, Cancel, Review, Reconcile and Listing
-- are its operations on runs, Memory has remember, Agents the operations on agents and rules, and
-- Ingest has ingest; Admission, Verdict and Consent are about submit and review.
--
-- Core: rednexus/core.py, the reference runtime of one process.
--
-- Lifecycle: Transition has the changes that the program's own writers make to a run, and
-- Evolution, Reachable, Stopped and Safety are about the ten operations that change runs as such
-- changes: recover, claim_one, prepare, finish, submit, ingest, submit_group, cancel, review and
-- reconcile. Diagram is the abstract specification of a run's life, written without those writers;
-- Edges and Refinement join the two.
--
-- Recall: search_memory and delete_memory of rednexus/platform/service.py, and
-- rednexus/platform/memory.py: the index of vectors, purge_expired and semantic search. The
-- embedding service's answers and arithmetic on floats are fields of a record.
--
-- EventBus: the class of this name in rednexus/platform/events.py. Redis is outside: what is sent
-- to it is a log, whether a call of xadd returns and what the stream delivers are arguments.
--
-- Extensions: rednexus/platform/extensions.py: Groups has the operations on mission groups,
-- Templates those on stored workflows, Reruns the second submission of a run, and Overview
-- workspaces, registrations and reports.
--
-- Accounts: the creation of users and the change of their access in rednexus/platform/identity.py
-- and rednexus/platform/api.py, and the operator's commands on users and workspaces in
-- rednexus/platform/cli.py.
--
-- Gateway: Specs has the validation of a capability contract in rednexus/platform/contracts.py and
-- rednexus/integrations/native.py, Catalog the loading of the registry and Execute the gateway of
-- rednexus/platform/adapters.py; the network, the key store and urlsplit are fields of records.
-- Covered joins the registry with the worker's prepare.
--
-- AdapterSdk: rednexus/adapter_sdk.py, the adapter that other products build, with its receipts.
-- `execute` is split where it calls the handler: begin is what comes before, settle what comes
-- after, and a crash is a settle that never comes.
--
-- Examples: the world on which the theorems are applied, and their instances.
--
-- Bounds. Python's integers are unbounded and so are these numbers. Loops are structural recursion
-- on the list that the code iterates over; only the digits of a number are written with fuel, the
-- number itself, which has no more digits than its value plus one.
--
-- Not modelled: routing and parsing in the HTTP API and the command line, the launcher, telemetry,
-- the key store and the configuration, which are input and output around the operations; the
-- network part of the gateway and the integrations behind it; discovery, which probes endpoints;
-- backups; drafts and planning by agents; the read-only views inspect, replay and evaluation; and
-- the hashing of passwords. An entry of a plan is kept as the typed step with its contract and
-- fingerprint: the JSON column, whose dump is filtered by key and parsed again by
-- workflow_from_run, is not modelled, so that reading is a projection. The retry of submit after
-- an IntegrityError is not reached in the model, as a transaction is one step.
pub mod Base
pub mod Json
pub mod AdapterSdk
pub mod Contracts
pub mod Env
pub mod Workflows
pub mod Store
pub mod Identity
pub mod Registry
pub mod Sessions
pub mod Worker
pub mod Platform
pub mod Recall
pub mod EventBus
pub mod Extensions
pub mod Accounts
pub mod Gateway
pub mod Lifecycle
pub mod Core
pub mod Examples
