-- ===== src/Accounts.antt =====
-- Who may do what: users, memberships and workspaces, as the API (identity.py, api.py, extensions.py)
-- and the operator's command line (cli.py) change them.
pub mod Users
pub mod Operator
pub mod Plain
pub mod Kept
pub mod Grants
