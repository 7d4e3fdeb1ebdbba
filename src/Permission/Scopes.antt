-- ===== src/Permission/Scopes.antt =====
-- How `filter_resources_by_scope` and `scope_matches` agree.
use ops_service.Prelude.{
  Uuid, ◌≡◌, ◌⊎◌, inl, inr, refl, ◌∙◌, Bool, true, false, ◌&&◌, ◌||◌, Option, none, some, List, [],
  ◌∷◌, ◌++◌, any, arith, Bool-cases,
}
use ops_service.Prelude.Bytes.{Bytes, codes, bytes_eq, bytes_eq_sound, bytes_eq_refl}
use ops_service.Error.{ok}
use ops_service.Permission.{
  RoleBinding, Store, read_bindings, Answers, bindings_of, has_scope, scope_matches, collect_values,
  filter_resources_by_scope,
}

abbrev pub is_global : RoleBinding → Bool
is_global b = bytes_eq b.scope_type (codes "global")

abbrev pub is_listed : Bytes → List Bytes → Bool
is_listed v = any (λ w. bytes_eq w v)

abbrev pub is_value : Bytes → Option Bytes → Bool
is_value v none = false
is_value v (some w) = bytes_eq w v

-- The two kinds of scope that are not global.
abbrev pub IsKind : Bytes → Type 0
IsKind kind = (kind ≡ codes "group") ⊎ (kind ≡ codes "environment")

any-append : (p : Bytes → Bool) (xs ys : List Bytes) → any p (xs ++ ys) ≡ (any p xs || any p ys)
any-append p [] ys = refl
any-append p (x ∷ xs) ys = ground (arith, any-append p xs ys)

has_scope_value :
    (kind v : Bytes) (own : Option Bytes) → has_scope kind own (some kind) (some v) ≡ is_value v own
has_scope_value kind v none = refl
has_scope_value kind v (some w) = rw (bytes_eq_refl kind) refl

other_kind :
    (own : Option Bytes) (kind asked v : Bytes)
    → bytes_eq asked kind ≡ false
    → has_scope kind own (some asked) (some v) ≡ false
other_kind none kind asked v h = refl
other_kind (some w) kind asked v h = rw h refl

-- What a binding that is not global covers.
kind_matches :
    (kind v : Bytes) (b : RoleBinding)
    → IsKind kind
    → is_global b ≡ false
    → scope_matches b (some kind) (some v)
      ≡ (bytes_eq b.scope_type kind && is_value v b.scope_value)
unfolding scope_matches
kind_matches kind v b (inl e) h = rw e (
    ground (
      arith,
      has_scope_value (codes "group") v b.scope_value,
      other_kind b.scope_value (codes "environment") (codes "group") v refl,
    ))
kind_matches kind v b (inr e) h = elim (Bool-cases (bytes_eq b.scope_type (codes "group"))) [
  | inl of_group ↦
      rw (e, bytes_eq_sound b.scope_type (codes "group") of_group)
        (other_kind b.scope_value (codes "group") (codes "environment") v refl)
  | inr other ↦ rw e (ground (arith, has_scope_value (codes "environment") v b.scope_value))
]

global_is_no_kind :
    (kind : Bytes) (b : RoleBinding)
    → IsKind kind
    → is_global b ≡ true
    → bytes_eq b.scope_type kind ≡ false
global_is_no_kind kind b (inl e) h = rw (bytes_eq_sound b.scope_type (codes "global") h, e) refl
global_is_no_kind kind b (inr e) h = rw (bytes_eq_sound b.scope_type (codes "global") h, e) refl

abbrev pub is_covered : Bytes → Bytes → List RoleBinding → Bool
is_covered kind v = any (λ b. scope_matches b (some kind) (some v))

module _ (kind : Bytes) (kinds : IsKind kind) where
  collect_step :
      (b : RoleBinding) (bs : List RoleBinding) (values : List Bytes) (own : Option Bytes)
      → is_global b ≡ false
      → b.scope_value ≡ own
      → (collect_values kind (b ∷ bs) values ≡ collect_values kind bs values
          × ((v : Bytes) → (bytes_eq b.scope_type kind && is_value v own) ≡ false))
        ⊎ ((w : Bytes) × (own ≡ some w)
            × (bytes_eq b.scope_type kind ≡ true)
            × (collect_values kind (b ∷ bs) values ≡ collect_values kind bs (values ++ w ∷ [])))
  unfolding collect_values
  collect_step b bs values none h own = inl (ground (arith, own), λ v. ground arith)
  collect_step b bs values (some w) h own = elim (Bool-cases (bytes_eq b.scope_type kind)) [
    | inl hit ↦ inr (w, refl, hit, ground (arith, own))
    | inr miss ↦ inl (ground arith, λ v. ground arith)
  ]

  collect_values_global :
      (bs : List RoleBinding) (values : List Bytes)
      → any is_global bs ≡ true
      → collect_values kind bs values ≡ codes "*" ∷ []
  unfolding collect_values
  collect_values_global [] values h = absurd (ground arith)
  collect_values_global (b ∷ bs) values h = elim (Bool-cases (is_global b)) [
    | inl all ↦ ground (arith, global_is_no_kind kind b kinds all)
    | inr scoped ↦ elim (collect_step b bs values b.scope_value scoped refl) [
      | inl (same, _) ↦ same ∙ collect_values_global bs values (ground arith)
      | inr (w, _, _, added) ↦ added ∙ collect_values_global bs (values ++ w ∷ []) (ground arith)
    ]
  ]

  collect_values_listed :
      (v : Bytes) (bs : List RoleBinding) (values : List Bytes)
      → any is_global bs ≡ false
      → is_listed v (collect_values kind bs values) ≡ (is_listed v values || is_covered kind v bs)
  unfolding collect_values
  collect_values_listed v [] values h = ground arith
  collect_values_listed v (b ∷ bs) values h =
      let scoped : is_global b ≡ false = ground arith in
      let meant = kind_matches kind v b kinds scoped in
      elim (collect_step b bs values b.scope_value scoped refl) [
        | inl (same, out) ↦
            let rest = collect_values_listed v bs values (ground arith) in
            rw (same, rest, meant, out v) refl
        | inr (w, own, hit, added) ↦
            let rest = collect_values_listed v bs (values ++ w ∷ []) (ground arith) in
            rw (added, rest, meant, own, hit, any-append (λ u. bytes_eq u v) values (w ∷ []))
              (ground arith)
      ]

  -- With the bindings read, the filter for groups or for environments gives "*" alone if the user has
  -- a global binding, and otherwise lists exactly the values that some binding of the user covers.
  pub filter_agrees :
      (answered : Answers) (user : Uuid) (s : Store)
      → answered read_bindings ≡ true
      → (values : List Bytes) × (filter_resources_by_scope answered user kind s ≡ (s, ok values))
        × (((any is_global (bindings_of user s) ≡ true) × (values ≡ codes "*" ∷ []))
            ⊎ ((any is_global (bindings_of user s) ≡ false)
                × ((v : Bytes) → is_listed v values ≡ is_covered kind v (bindings_of user s))))
  unfolding filter_resources_by_scope
  filter_agrees answered user s a =
      let bs = bindings_of user s in
      (
        collect_values kind bs [],
        rw a refl,
        elim (Bool-cases (any is_global bs)) [
          | inl all ↦ inl (all, collect_values_global bs [] all)
          | inr scoped ↦ inr (scoped, λ v. collect_values_listed v bs [] scoped)
        ],
      )
