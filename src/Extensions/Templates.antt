-- ===== src/Extensions/Templates.antt =====
-- Workflows that are stored under a name, in numbered versions.
use rednexus_ai.Base.{
  ℕ, ◌+◌, String, Bool, ◌&&◌, Option, none, some, List, [], ◌∷◌, ◌++◌, ◌==◌, leb, max, filter,
  if◌then◌else◌, Result, ok, raise, and_then,
}
use rednexus_ai.Base.Sorting.{sort, first_rows}
use rednexus_ai.Base.Table.{Keyed, find}
use rednexus_ai.Json.{str, obj}
use rednexus_ai.Contracts.{RunInput}
use rednexus_ai.Contracts.Accept.{validated}
use rednexus_ai.Contracts.Dump.{fields, num}
use rednexus_ai.Env.{Env, Draws}
use rednexus_ai.Identity.{Actor}
use rednexus_ai.Registry.{Registry}
use rednexus_ai.Store.{Db, Run, emit}
use rednexus_ai.Platform.Submit.{snapshot, submit}

pub record TemplateInput : Type 0 where
  pub name : String
  pub workflow : RunInput

pub record Template : Type 0 where
  pub id : String
  pub workspace : String
  pub name : String
  pub version : ℕ
  pub workflow : RunInput
  pub owner : String
  pub created : ℕ

instance abbrev pub template_keyed : Keyed Template
template_keyed = record { key = λ t. t.id }

pub record Library : Type 0 where
  pub db : Db
  pub templates : List Template

abbrev pub is_named : String → String → Template → Bool
is_named w n t = t.workspace == w && t.name == n

-- `select(func.max(Template.version))` of a name, `or 0`.
unfoldable pub max_template : String → String → List Template → ℕ
max_template w n [] = 0
max_template w n (t ∷ ts) =
    let rest = max_template w n ts in if is_named w n t then max t.version rest else rest

unfoldable pub new_template : Draws → Actor → TemplateInput → ℕ → Template
new_template t actor d version = record {
  id = t.uid 0;
  workspace = actor.workspace;
  name = d.name;
  version = version;
  workflow = d.workflow;
  owner = actor.id;
  created = t.clock 0;
}

unfoldable pub add_template : Env → Draws → Actor → TemplateInput → Library → Template × Library
add_template env t actor d s =
    let version = max_template actor.workspace d.name s.templates + 1 in
    let row = new_template t actor d version in
    (
      row,
      record {
        db =
            emit env actor.workspace "template.created"
              (obj (
                fields
                  (("id", str row.id) ∷ ("version", num version) ∷ ("actor", str actor.id) ∷ [])))
              none s.db;
        templates = s.templates ++ row ∷ [];
      },
    )

-- `save_template(data)`; the answer is the identifier and the version of the row.
unfoldable pub save_template :
    Env → Registry → Draws → Actor → TemplateInput → Library → Result Template × Library
save_template env reg t actor d s =
    and_then (snapshot env reg actor d.workflow, s)
      λ _ s. let (row, next) = add_template env t actor d s in (ok row, next)

abbrev later_template : Template → Template → Bool
later_template t u = leb u.created t.created

-- `templates()`.
unfoldable pub templates : Actor → Library → List Template
templates actor s =
    first_rows 100
      (sort later_template (filter (λ (t : Template). t.workspace == actor.workspace) s.templates))

own_template : Actor → Option Template → Result RunInput
own_template actor none = raise 404 "template not found"
own_template actor (some t) =
    if t.workspace == actor.workspace then ok t.workflow else raise 404 "template not found"

-- `template_run(template_id, idempotency_key)`: admitted as any other workflow is, today.
unfoldable pub template_run :
    Env → Registry → Draws → Actor → String → String → Library → Result Run × Library
unfolding own_template
template_run env reg t actor i k s =
    and_then (own_template actor (find i s.templates), s)
      λ stored s.
        and_then (validated env stored, s)
          λ w s.
            let (answer, db) = submit env reg t actor w k s.db in (answer, record s { db = db })
