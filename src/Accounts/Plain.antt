-- ===== src/Accounts/Plain.antt =====
-- Lists of grants without a platform grant.
use rednexus_ai.Base.Text.{starts_with}
use mathlib.Core.Path.{subst}
use Prim.Native.String
use rednexus_ai.Base.{
  ◌||◌, ◌&&◌, All-append, filter, sym, ◌≡◌, refl, sym, ap, String, true, false, ◌&&◌, List, [], ◌∷◌,
  ◌++◌, ◌==◌, elem, filter, arith, All, All-append, Bool-cases, inl, inr, eq_iff,
}
use text.Mathlib.TextLemmas.{cons-append}
use rednexus_ai.Base.Sorting.{All-sort, All-sort}
use rednexus_ai.Registry.{Registry}
use rednexus_ai.Store.{Membership}
use rednexus_ai.Extensions.Overview.{Tenancy, workspace_keyed, Tenancy}
use rednexus_ai.Accounts.Users.{modify_membership, has_platform, modify_membership}
use rednexus_ai.Accounts.Operator.{
  shared_grants, spec_names, spec_names, usable, text_le, prefixed, all_grants, added_grants,
  merged_grants, all_grants, new_texts, added_grants, merged_grants, prefixed,
}

abbrev pub IsPlain : List String → Type 0
IsPlain gs = All (λ g. starts_with "platform:" g ≡ false) gs

abbrev pub IsLocal : Tenancy → Type 0
IsLocal s = All (λ (m : Membership). IsPlain m.grants) s.db.memberships

pub has_platform-IsPlain : (gs : List String) → has_platform gs ≡ false → IsPlain gs
unfolding has_platform
has_platform-IsPlain [] h = tt
has_platform-IsPlain (g ∷ gs) h = (ground arith, has_platform-IsPlain gs (ground arith))

pub elem-IsPlain :
    (a : String) (gs : List String)
    → IsPlain gs
    → elem a gs ≡ true
    → starts_with "platform:" a ≡ false
unfolding elem
elem-IsPlain a [] h e = cc
elem-IsPlain a (g ∷ gs) (h, hs) e = elim (Bool-cases (g == a)) [
  | inl same ↦
      let equal : a ≡ g = ground (arith, same, eq_iff g a) in
      subst (λ x. starts_with "platform:" x ≡ false) (sym equal) h
  | inr other ↦
      let either : (g == a || elem a gs) ≡ true = e in
      let rest : elem a gs ≡ true = rw other at either in elem-IsPlain a gs hs rest
]

tool-plain : (n : String) → starts_with "platform:" (String.◌++◌ "tool:" n) ≡ false
unfolding starts_with
tool-plain n = ap (starts_with "platform:") (cons-append "t" "ool:" n)

review-plain : (n : String) → starts_with "platform:" (String.◌++◌ "review:" n) ≡ false
unfolding starts_with
review-plain n = ap (starts_with "platform:") (cons-append "r" "eview:" n)

prefixed-IsPlain :
    (kind : String) (names : List String)
    → ((n : String) → starts_with "platform:" (String.◌++◌ kind n) ≡ false)
    → IsPlain (prefixed kind names)
unfolding prefixed
prefixed-IsPlain kind [] f = tt
prefixed-IsPlain kind (n ∷ ns) f = (f n, prefixed-IsPlain kind ns f)

new_texts-IsPlain : (seen ts : List String) → IsPlain ts → IsPlain (new_texts seen ts)
unfolding new_texts
new_texts-IsPlain seen [] h = tt
new_texts-IsPlain seen (t ∷ ts) (h, hs) = elim (Bool-cases (elem t seen)) [
  | inl old ↦ rw old (new_texts-IsPlain seen ts hs)
  | inr new ↦ rw new (h, new_texts-IsPlain (t ∷ seen) ts hs)
]

pub modify_membership-IsPlain :
    (w u : String) (f : Membership → Membership) (ms : List Membership)
    → ((m : Membership) → IsPlain m.grants → IsPlain (f m).grants)
    → All (λ (m : Membership). IsPlain m.grants) ms
    → All (λ (m : Membership). IsPlain m.grants) (modify_membership w u f ms)
unfolding modify_membership
modify_membership-IsPlain w u f [] keep h = tt
modify_membership-IsPlain w u f (m ∷ ms) keep (h, hs) =
    elim (Bool-cases (m.workspace == w && m.user_id == u)) [
      | inl hit ↦ rw hit (keep m h, hs)
      | inr missed ↦ rw missed (h, modify_membership-IsPlain w u f ms keep hs)
    ]

pub all_grants-IsPlain : (reg : Registry) → IsPlain (all_grants reg)
unfolding all_grants starts_with
all_grants-IsPlain reg =
    All-append _ (prefixed "tool:" (spec_names reg))
      (prefixed "review:" (spec_names reg) ++ shared_grants)
      (prefixed-IsPlain "tool:" (spec_names reg) tool-plain)
      (All-append _ (prefixed "review:" (spec_names reg)) shared_grants
        (prefixed-IsPlain "review:" (spec_names reg) review-plain) (refl, (refl, (refl, tt))))

pub added_grants-IsPlain :
    (reg : Registry) (w : String) (old : List String) → IsPlain (added_grants reg w old)
unfolding added_grants
added_grants-IsPlain reg w old =
    let names = spec_names (filter (usable w) reg) in
    All-sort _ text_le _ (
      new_texts-IsPlain old _ (
        All-append _ (prefixed "tool:" names) _ (prefixed-IsPlain "tool:" names tool-plain)
          (prefixed-IsPlain "review:" names review-plain)))

pub merged_grants-IsPlain :
    (old added : List String) → IsPlain old → IsPlain added → IsPlain (merged_grants old added)
unfolding merged_grants
merged_grants-IsPlain old added h k =
    All-sort _ text_le _ (new_texts-IsPlain [] _ (All-append _ old added h k))
