-- ===== src/Migrations/Laws.antt =====
-- The chain of migrations as a whole.
use nalang_project.Prelude.{
  ◌≡◌, refl, sym, ap, ◌∙◌, String, Bool, true, false, Option, none, some, List, [], ◌∷◌,
  if◌then◌else◌, arith, string_eq, ==_refl, Bool-cases, Option-cases, inl, inr,
}
use nalang_project.Dict.{Dict, lookup, insert, contains, lookup-insert}
use nalang_project.Migrations.{
  Schema, Table, Op, create_table, drop_table, create_index, drop_index, alter_column, has_column,
  apply, and_run, run_ops, versions, upgrade_head, call_histories, datetime, call_history_datetime,
  timezone, timezone1, timezone1_again,
}

insert-contains :
    {V : Type 0} (k j : String) (v : V) (d : Dict String V)
    → contains j d ≡ true
    → contains j (insert k v d) ≡ true
insert-contains k j v d h = ground (arith, lookup-insert k j v d)

insert-contains_self :
    {V : Type 0} (k : String) (v : V) (d : Dict String V) → contains k (insert k v d) ≡ true
insert-contains_self k v d = rw (lookup-insert k k v d, ==_refl k)

abbrev is_drop : Op → Bool
is_drop (drop_table name) = true
is_drop _ = false

-- The table is there, or there was an error.
abbrev has_or_none : String → Option Schema → Bool
has_or_none name none = true
has_or_none name (some s) = contains name s.tables

-- Only `drop_table` removes a table.
has-apply :
    (op : Op) (name : String) (s : Schema)
    → is_drop op ≡ false
    → contains name s.tables ≡ true
    → has_or_none name (apply op s) ≡ true
unfolding apply
has-apply (create_table n t) name s d h = ground (arith, insert-contains n name t s.tables)
has-apply (drop_table n) name s d h = cc
has-apply (create_index n t cs) name s d h = ground arith
has-apply (drop_index n) name s d h = ground arith
has-apply (alter_column t c ty) name s d h = elim (Option-cases (lookup t s.tables)) [
  | inl e ↦ rw e refl
  | inr (u, e) ↦ elim (Bool-cases (has_column c u.columns)) [
    | inl k ↦ rw (e, k) (insert-contains t name _ s.tables h)
    | inr k ↦ rw (e, k) refl
  ]
]

abbrev no_drop : List Op → Bool
no_drop [] = true
no_drop (op ∷ ops) = if is_drop op then false else no_drop ops

-- A table that is there cannot be created.
create_twice :
    (ops rest : List Op) (name : String) (t : Table) (s : Schema)
    → no_drop ops ≡ true
    → contains name s.tables ≡ true
    → and_run (run_ops ops s) (run_ops (create_table name t ∷ rest)) ≡ none
unfolding run_ops
create_twice [] rest name t s d h = unfold apply in rw h refl
create_twice (op ∷ ops) rest name t s d h = elim (Bool-cases (is_drop op)) [
  | inl k ↦ cc (rw k at d)
  | inr k ↦ elim (Option-cases (apply op s)) [
    | inl e ↦ rw e refl
    | inr (s2, e) ↦ rw e (
        create_twice ops rest name t s2 (rw k at d)
          (sym (ap (has_or_none name) e) ∙ has-apply op name s k h))
  ]
]

has-created :
    (name : String) (t : Table) (s : Schema)
    → has_or_none name (apply (create_table name t) s) ≡ true
unfolding apply
has-created name t s = ground (arith, insert-contains_self name t s.tables)

and_run_assoc :
    {A : Type 0} (o : Option A) (f g : A → Option A)
    → and_run (and_run o f) g ≡ and_run o (λ a. and_run (f a) g)
and_run_assoc none f g = refl
and_run_assoc (some a) f g = refl

-- A revision that creates a table, drops none and is followed by one that creates it too.
created_twice :
    (ops rest : List Op) (name : String) (t : Table) (s : Schema) (g : Schema → Option Schema)
    → no_drop ops ≡ true
    → and_run
        (run_ops (create_table name t ∷ ops) s)
        (λ s1. and_run (run_ops (create_table name t ∷ rest) s1) g)
      ≡ none
unfolding run_ops
created_twice ops rest name t s g d = elim (Option-cases (apply (create_table name t) s)) [
  | inl e ↦ rw e refl
  | inr (s1, e) ↦ rw e (
      sym (and_run_assoc (run_ops ops s1) (run_ops (create_table name t ∷ rest)) g)
      ∙ rw
          (create_twice ops rest name t s1 d (sym (ap (has_or_none name) e) ∙ has-created name t s))
          refl)
]

-- No database can be upgraded from the base to the head, whatever its tables are: the first revision
-- creates the table `call_histories`, and so does the second.
pub upgrade_head-versions : (s : Schema) → upgrade_head versions s ≡ none
unfolding upgrade_head
upgrade_head-versions s =
    created_twice
      (create_index "ix_call_histories_id" "call_histories" ("id" ∷ [])
        ∷ alter_column "users" "birth_date" datetime
        ∷ [])
      (create_index "ix_call_histories_id" "call_histories" ("id" ∷ []) ∷ []) "call_histories"
      call_histories s
      (upgrade_head (call_history_datetime ∷ timezone ∷ timezone1 ∷ timezone1_again ∷ [])) refl
