-- ===== src/Permissions/Index.antt =====
-- permissions/permissions.go: what `New` accepts, and what the index of a set finds.
use go_authbyte.Base.{
  ℕ, zero, suc, ◌≡◌, refl, sym, ap, ◌∙◌, ◌↔◌, ◌⊎◌, inl, inr, true, false, Option, none, some, List,
  [], ◌∷◌, ◌++◌, append-nil, append_assoc, arith, if◌then◌else◌, Bool-cases, Option-cases, length,
  get_elem?, all, ◌==◌, ==_refl, Bytes, bytes_eq_iff, ℕ_comparable, Bytes_comparable, ok,
}
use go_authbyte.Base.Map.{lookup, insert, lookup-insert}
use mathlib.Core.List.{concat-ne-nil}
use go_authbyte.Permissions.Shapes.{
  colon, no_colon, act_shape, feature_shape, act_shape-no_colon, feature_shape-no_colon,
}
use go_authbyte.Permissions.{
  Permission, Set, Walk, check, key, declare, declare_list, declare_lists, finish, new, at_index,
  find, declared,
}

-- A declared permission passed every check.
abbrev IsSound : Permission → Type 0
IsSound p = check p ≡ none

check-shapes :
    (p : Permission) → check p ≡ none → (feature_shape p.feature ≡ true) × (act_shape p.act ≡ true)
unfolding check
check-shapes p h = ground arith

colon_inside : (f a : Bytes) → all no_colon (f ++ colon ∷ a) ≡ false
colon_inside [] a = refl
colon_inside (c ∷ f) a = ground (arith, colon_inside f a)

-- A feature and an act without colons can be read off their key.
key-injective :
    (f g a b : Bytes)
    → all no_colon g ≡ true
    → all no_colon b ≡ true
    → key f a ≡ key g b
    → (f ≡ g) × (a ≡ b)
key-injective [] [] a b hg hb e = ground arith
key-injective [] (d ∷ g) a b hg hb e = ground arith
key-injective (c ∷ f) [] a b hg hb e = ground (arith, colon_inside f a)
key-injective (c ∷ f) (d ∷ g) a b hg hb e = ground (arith, key-injective f g a b)

module _ {A : Type 0} where
  get_elem?-append_left :
      (xs ys : List A) (i : ℕ) {a : A} → get_elem? xs i ≡ some a → get_elem? (xs ++ ys) i ≡ some a
  get_elem?-append_left [] ys i h = cc
  get_elem?-append_left (x ∷ xs) ys zero h = h
  get_elem?-append_left (x ∷ xs) ys (suc i) h = get_elem?-append_left xs ys i h

  get_elem?-length : (xs : List A) (a : A) → get_elem? (xs ++ a ∷ []) (length xs) ≡ some a
  get_elem?-length [] a = refl
  get_elem?-length (x ∷ xs) a = get_elem?-length xs a

  get_elem?-append_inv :
      (xs : List A) (a b : A) (i : ℕ)
      → get_elem? (xs ++ b ∷ []) i ≡ some a
      → (get_elem? xs i ≡ some a) ⊎ ((i ≡ length xs) × (a ≡ b))
  get_elem?-append_inv [] a b zero h = inr (refl, cc)
  get_elem?-append_inv [] a b (suc i) h = inl h
  get_elem?-append_inv (x ∷ xs) a b zero h = inl h
  get_elem?-append_inv (x ∷ xs) a b (suc i) h = elim (get_elem?-append_inv xs a b i h) [
    | inl k ↦ inl k
    | inr (e, k) ↦ inr (ap suc e, k)
  ]

-- The index of a set holds the position of each permission under its key, and nothing else; every
-- permission passed the checks.
pub record IsIndexed (s : Set) : Type 0 where
  pub sound :
      (k : Bytes) (i : ℕ)
      → lookup s.index k ≡ some i
      → (p : Permission) × (get_elem? s.list i ≡ some p) × (key p.feature p.act ≡ k)
  complete :
      (p : Permission) (i : ℕ)
      → get_elem? s.list i ≡ some p
      → lookup s.index (key p.feature p.act) ≡ some i
  pub checked : (p : Permission) (i : ℕ) → get_elem? s.list i ≡ some p → IsSound p

module _ (s : Set) (p : Permission) where
  abbrev extended : Set
  extended = record s {
    index = insert s.index (key p.feature p.act) (length s.list);
    list = s.list ++ p ∷ [];
  }

  lookup-extended :
      (k : Bytes)
      → lookup extended.index k
        ≡ (if k == key p.feature p.act then some (length s.list) else lookup s.index k)
  lookup-extended k = lookup-insert s.index (key p.feature p.act) k (length s.list)

  extended_position :
      (k : Bytes) (i : ℕ)
      → lookup extended.index k ≡ some i
      → (k == key p.feature p.act) ≡ true
      → i ≡ length s.list
  extended_position k i h e = ground (arith, lookup-extended k)

  extended_self : lookup extended.index (key p.feature p.act) ≡ some (length s.list)
  extended_self = lookup-extended (key p.feature p.act) ∙ rw (==_refl (key p.feature p.act))

  extended-IsIndexed :
      IsIndexed s → IsSound p → lookup s.index (key p.feature p.act) ≡ none → IsIndexed extended
  extended-IsIndexed v good fresh = record {
    sound = λ k i h. elim (Bool-cases (k == key p.feature p.act)) [
      | inl e ↦ (
        p,
        rw (extended_position k i h e) (get_elem?-length s.list p),
        sym ((bytes_eq_iff k (key p.feature p.act)).0 e),
      )
      | inr e ↦
          let (q, found, spelt) = v.sound k i (ground (arith, lookup-extended k)) in
          (q, get_elem?-append_left s.list (p ∷ []) i found, spelt)
    ];
    complete = λ q i h. elim (get_elem?-append_inv s.list q p i h) [
      | inl old ↦ ground (
        arith,
        lookup-extended (key q.feature q.act),
        v.complete q i old,
        bytes_eq_iff (key q.feature q.act) (key p.feature p.act),
      )
      | inr (e, k) ↦ rw (k, e) extended_self
    ];
    checked = λ q i h. elim (get_elem?-append_inv s.list q p i h) [
      | inl old ↦ v.checked q i old
      | inr (e, k) ↦ rw k good
    ];
  }

-- A round that reports no error added the permission at the end.
declare-IsIndexed :
    (w : Walk) (p : Permission)
    → IsIndexed w.0
    → IsIndexed (declare w p).0
      × ((declare w p).1 ≡ []
          → (w.1 ≡ [])
            × ((declare w p).0.list ≡ w.0.list ++ p ∷ [])
            × ((declare w p).0.service ≡ w.0.service))
unfolding declare
declare-IsIndexed (s, errs) p v = elim (Option-cases (check p)) [
  | inr (e, bad) ↦ rw (bad, declare) (v, λ h. absurd (concat-ne-nil e errs h))
  | inl good ↦ elim (Option-cases (lookup s.index (key p.feature p.act))) [
    | inr (i, dup) ↦ rw (good, declare) (rw dup (v, λ h. absurd (concat-ne-nil _ errs h)))
    | inl fresh ↦
        rw (good, declare) (rw fresh (extended-IsIndexed s p v good fresh, λ h. (h, refl, refl)))
  ]
]

-- The permissions of a run of lists, in their order.
abbrev pub joined : List (List Permission) → List Permission
joined [] = []
joined (list ∷ lists) = list ++ joined lists

-- What a walk over the permissions of a list gives: an indexed set, and if no error was reported,
-- all of them behind what was there.
abbrev Walked : Walk → Walk → List Permission → Type 0
Walked w w' list =
    IsIndexed w'.0
    × (w'.1 ≡ [] → (w.1 ≡ []) × (w'.0.list ≡ w.0.list ++ list) × (w'.0.service ≡ w.0.service))

Walked-trans :
    (u v w : Walk) (xs ys : List Permission) → Walked u v xs → Walked v w ys → Walked u w (xs ++ ys)
Walked-trans u v w xs ys (_, f) (i, g) = (
  i,
  λ h.
      let (clean, list, same) = g h in
      let (clean', list', same') = f clean in
      (clean', list ∙ ap (λ l. l ++ ys) list' ∙ append_assoc u.0.list xs ys, same ∙ same'),
)

declare_list-Walked :
    (w : Walk) (list : List Permission) → IsIndexed w.0 → Walked w (declare_list w list) list
unfolding declare_list
declare_list-Walked w [] v = (v, λ h. (h, sym (append-nil w.0.list), refl))
declare_list-Walked w (p ∷ list) v =
    let step = declare-IsIndexed w p v in
    Walked-trans w (declare w p) (declare_list (declare w p) list) (p ∷ []) list step
      (declare_list-Walked (declare w p) list step.0)

declare_lists-Walked :
    (w : Walk) (lists : List (List Permission))
    → IsIndexed w.0
    → Walked w (declare_lists w lists) (joined lists)
unfolding declare_lists
declare_lists-Walked w [] v = (v, λ h. (h, sym (append-nil w.0.list), refl))
declare_lists-Walked w (list ∷ lists) v =
    let step = declare_list-Walked w list v in
    Walked-trans w (declare_list w list) (declare_lists (declare_list w list) lists) list
      (joined lists) step (declare_lists-Walked (declare_list w list) lists step.0)

abbrev start : Bytes → Bytes → Walk
start service display_name =
    (record { service = service; display_name = display_name; list = []; index = [] }, [])

empty-IsIndexed :
    (service display_name : Bytes)
    → IsIndexed (record { service = service; display_name = display_name; list = []; index = [] })
unfolding lookup
empty-IsIndexed service display_name = record {
  sound = λ k i h. (absurd (cc));
  complete = λ p i h. cc;
  checked = λ p i h. cc;
}

finish-ok : (w : Walk) (s : Set) → finish w ≡ ok s → (w.1 ≡ []) × (w.0 ≡ s)
finish-ok (s', []) s h = (refl, cc)
finish-ok (s', e ∷ errs) s h = cc

-- A set that `New` builds holds the permissions of all lists in their order, under the service's
-- key; each passed the checks, and the index finds each under its feature and act.
pub new-IsIndexed :
    (service display_name : Bytes) (lists : List (List Permission)) {s : Set}
    → new service display_name lists ≡ ok s
    → IsIndexed s × (s.list ≡ joined lists) × (s.service ≡ service)
unfolding new
new-IsIndexed service display_name lists {s} h =
    let (indexed, whole) =
      declare_lists-Walked (start service display_name) lists
        (empty-IsIndexed service display_name) in
    let (clean, same) =
      finish-ok (declare_lists (start service display_name) lists) s (ground arith) in
    let (_, list, key) = whole clean in rw (← same) (indexed, list, key)

key-feature_act :
    (p : Permission) (feature act : Bytes)
    → IsSound p
    → key feature act ≡ key p.feature p.act
    → (feature ≡ p.feature) × (act ≡ p.act)
key-feature_act p feature act good e =
    let (f, a) = check-shapes p good in
    key-injective feature p.feature act p.act (feature_shape-no_colon p.feature f)
      (act_shape-no_colon p.act a) e

-- `Lookup` finds exactly the declared permissions: it answers `p` for a feature and an act if and
-- only if `p` stands in the list and has that feature and that act, whatever the two texts are.
pub find_iff :
    (s : Set) (feature act : Bytes) (p : Permission)
    → IsIndexed s
    → (find s feature act ≡ some p)
      ↔ ((i : ℕ) × (get_elem? s.list i ≡ some p) × (p.feature ≡ feature) × (p.act ≡ act))
unfolding find
find_iff s feature act p v = (
  λ h. found (lookup s.index (key feature act)) refl h,
  λ (i, at, f, a). rw (← f, ← a, v.complete p i at) at,
)
  where
    found :
        (o : Option ℕ)
        → lookup s.index (key feature act) ≡ o
        → at_index s.list o ≡ some p
        → (i : ℕ) × (get_elem? s.list i ≡ some p) × (p.feature ≡ feature) × (p.act ≡ act)
    found none e h = cc
    found (some i) e h =
        let (q, at, spelt) = v.sound (key feature act) i e in
        let same : q ≡ p = cc in
        let (f, a) = key-feature_act q feature act (v.checked q i at) (sym spelt) in
        (i, h, ap (λ q. q.feature) (sym same) ∙ sym f, ap (λ q. q.act) (sym same) ∙ sym a)

-- `Declared` gives a route the right to check exactly what the set declares: it panics when
-- `Lookup` finds nothing, and else names that permission under the service's key.
declared-find :
    (s : Set) (feature act : Bytes)
    → IsIndexed s
    → ((find s feature act ≡ none) × (declared s feature act ≡ none))
      ⊎ ((p : Permission) × (find s feature act ≡ some p)
          × (declared s feature act
              ≡ some (record { service = s.service; feature = p.feature; act = p.act })))
unfolding find declared
declared-find s feature act v = elim (Option-cases (lookup s.index (key feature act))) [
  | inl e ↦ inl (rw e, rw e)
  | inr (i, e) ↦
      let (p, at, spelt) = v.sound (key feature act) i e in
      let (f, a) = key-feature_act p feature act (v.checked p i at) (sym spelt) in
      inr (p, rw e at, rw (e, f, a))
]
