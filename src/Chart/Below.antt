-- ===== src/Chart/Below.antt =====
-- chart/register.go: what a copied chart says.
use go_authbyte.Base.{
  ◌≡◌, refl, sym, ap, ◌∙◌, subst, ◌≢◌, ◌⊎◌, inl, inr, Bool, true, false, not, ◌&&◌, ◌||◌, Option,
  none, some, List, [], ◌∷◌, arith, nat_eq, if◌then◌else◌, nat_eq_iff, Bool-cases, All, ◌==◌,
  ==_iff, Bytes, codes, ℕ_comparable, Bytes_comparable, Result, ok, err, ◌>>=◌, bind-ok, ok_inj,
}
use go_authbyte.Base.Texts.{is_in, is_empty}
use go_authbyte.Base.Sorting.{sort, Ascending, is_in-sort, is_in-compact, compact-sort-Ascending}
use go_authbyte.Authclient.Headers.{get_header}
use go_authbyte.Authclient.Calls.{Answer}
use go_authbyte.Chart.{
  Below, Chart, RegisterError, no_subject, no_version, refused, others, below_of, with_below,
  copy_chart, copied, read_chart, Network,
}

others-kept :
    (a c g : Bool) (f : List Bytes) (subject s j : Bytes)
    → (s == j) ≡ c
    → is_in f j ≡ (not (is_empty j || j == subject) && g)
    → (c ≡ true → a ≡ (is_empty j || j == subject))
    → is_in (if a then f else s ∷ f) j ≡ (not (is_empty j || j == subject) && (c || g))
others-kept true true g f subject s j e h k =
    h ∙ ap (λ b. not b && g) (sym (k refl)) ∙ ap (λ b. not b && true) (k refl)
others-kept false true g f subject s j e h k =
    ap (λ x. x || is_in f j) e ∙ ap (λ b. not b && true) (k refl)
others-kept true false g f subject s j e h k = h
others-kept false false g f subject s j e h k = ap (λ x. x || is_in f j) e ∙ h

is_in-others :
    (subject : Bytes) (below : List Bytes) (j : Bytes)
    → is_in (others subject below) j ≡ (not (is_empty j || j == subject) && is_in below j)
is_in-others subject [] j = and_false (not (is_empty j || j == subject))
  where
    and_false : (b : Bool) → false ≡ (b && false)
    and_false true = refl
    and_false false = refl
is_in-others subject (s ∷ below) j =
    others-kept (is_empty s || s == subject) (s == j) (is_in below j) (others subject below) subject
      s j refl (is_in-others subject below j)
      (λ e. ap (λ x. is_empty x || x == subject) ((==_iff s j).0 e))

-- The people below someone: each once and in order, those of the answer but for the person itself
-- and the empty subject.
below_of_iff :
    (subject : Bytes) (below : List Bytes) (j : Bytes)
    → Ascending (below_of subject below)
      × (is_in (below_of subject below) j ≡ (not (is_empty j || j == subject) && is_in below j))
unfolding below_of
below_of_iff subject below j = (
  compact-sort-Ascending (others subject below),
  is_in-compact (sort (others subject below)) j
      ∙ is_in-sort (others subject below) j
      ∙ is_in-others subject below j,
)

abbrev pub HasEntry : Below → Bytes → List Bytes → Type 0
HasEntry [] s b = ⊥
HasEntry (e ∷ m) s b = (e ≡ (s, b)) ⊎ HasEntry m s b

-- An entry of the copy: a person, and some people below, who are the answer's.
abbrev pub Entry : Below → Bytes × List Bytes → Type 0
Entry answered e =
    (e.0 ≢ [])
    × (e.1 ≢ [])
    × Ascending e.1
    × (below : List Bytes) × HasEntry answered e.0 below
    × ((j : Bytes) → is_in e.1 j ≡ (not (is_empty j || j == e.0) && is_in below j))

weaken-Entry :
    (e : Bytes × List Bytes) (answered m : Below)
    → All (Entry answered) m
    → All (Entry (e ∷ answered)) m
weaken-Entry e answered [] h = tt
weaken-Entry e answered (x ∷ m) ((a, b, c, below, has, same), h) =
    ((a, b, c, below, inr has, same), weaken-Entry e answered m h)

with_below-Entry :
    (answered m : Below) (subject : Bytes) (b : List Bytes)
    → subject ≢ []
    → Ascending b
    → (below : List Bytes) → HasEntry answered subject below
    → ((j : Bytes) → is_in b j ≡ (not (is_empty j || j == subject) && is_in below j))
    → All (Entry answered) m
    → All (Entry answered) (with_below subject b m)
with_below-Entry answered m subject [] n a below has same h = h
with_below-Entry answered m subject (s ∷ b) n a below has same h =
    ((n, (λ q. cc), a, below, has, same), h)

copy_chart-Entry : (answered m : Below) → copy_chart answered ≡ ok m → All (Entry answered) m
unfolding copy_chart
copy_chart-Entry [] m h = subst (All (Entry [])) (ok_inj h) tt
copy_chart-Entry ((subject, below) ∷ answered) m h = elim (Bool-cases (is_empty subject)) [
  | inl e ↦ ground arith
  | inr e ↦
      (let (rest, same, made) =
          bind-ok (copy_chart answered) (λ m. ok (with_below subject (below_of subject below) m))
            (sym (
                ap
                  (λ b.
                    if b
                    then err no_subject
                    else (copy_chart answered >>= λ m.
                        ok (with_below subject (below_of subject below) m)))
                  e)
              ∙ h) in
        let more =
          weaken-Entry (subject, below) answered rest (copy_chart-Entry answered rest same) in
        subst (All (Entry ((subject, below) ∷ answered))) (ok_inj made) (
          with_below-Entry ((subject, below) ∷ answered) rest subject (below_of subject below)
            (named e) (below_of_iff subject below []).0 below (inl refl)
            (λ j. (below_of_iff subject below j).1) more))
]
  where
    named : is_empty subject ≡ false → subject ≢ []
    named e q = ground arith

-- Each person of the answer who has others below keeps them.
abbrev pub Complete : Below → Below → Type 0
Complete answered m = All (λ e. below_of e.0 e.1 ≢ [] → HasEntry m e.0 (below_of e.0 e.1)) answered

with_below-HasEntry :
    (subject : Bytes) (b : List Bytes) (m : Below)
    → b ≢ []
    → HasEntry (with_below subject b m) subject b
with_below-HasEntry subject [] m n = absurd (n refl)
with_below-HasEntry subject (s ∷ b) m n = inl refl

HasEntry-with_below :
    (subject : Bytes) (b : List Bytes) (m : Below) (t : Bytes) (c : List Bytes)
    → HasEntry m t c
    → HasEntry (with_below subject b m) t c
HasEntry-with_below subject [] m t c h = h
HasEntry-with_below subject (s ∷ b) m t c h = inr h

with_below-Complete :
    (subject : Bytes) (b : List Bytes) (m answered : Below)
    → Complete answered m
    → Complete answered (with_below subject b m)
with_below-Complete subject b m [] h = tt
with_below-Complete subject b m (e ∷ answered) (p, h) = (
  (λ n. HasEntry-with_below subject b m e.0 (below_of e.0 e.1) (p n)),
  with_below-Complete subject b m answered h,
)

copy_chart-Complete : (answered m : Below) → copy_chart answered ≡ ok m → Complete answered m
unfolding copy_chart
copy_chart-Complete [] m h = tt
copy_chart-Complete ((subject, below) ∷ answered) m h = elim (Bool-cases (is_empty subject)) [
  | inl e ↦ ground arith
  | inr e ↦
      (let (rest, same, made) =
          bind-ok (copy_chart answered) (λ m. ok (with_below subject (below_of subject below) m))
            (sym (
                ap
                  (λ b.
                    if b
                    then err no_subject
                    else (copy_chart answered >>= λ m.
                        ok (with_below subject (below_of subject below) m)))
                  e)
              ∙ h) in
        subst (Complete ((subject, below) ∷ answered)) (ok_inj made) (
          with_below-HasEntry subject (below_of subject below) rest,
          with_below-Complete subject (below_of subject below) rest answered
              (copy_chart-Complete answered rest same),
        ))
]

copied-ok :
    (etag : Bytes) (o : Option Below) (c : Chart)
    → copied etag o ≡ ok (some c)
    → (answered : Below) × (o ≡ some answered)
      × (c.version ≡ etag)
      × All (Entry answered) c.below
      × Complete answered c.below
copied-ok etag none c h = cc
copied-ok etag (some answered) c h =
    let (m, same, made) =
      bind-ok (copy_chart answered) (λ m. ok (some (record { version = etag; below = m }))) h in
    let e : record { version = etag; below = m } ≡ c = cc in
    (
      answered,
      refl,
      sym (ap (λ x. x.version) e),
      subst (All (Entry answered)) (ap (λ x. x.below) e) (copy_chart-Entry answered m same),
      subst (Complete answered) (ap (λ x. x.below) e) (copy_chart-Complete answered m same),
    )

-- A changed chart is read only from an answer 200 with a header ETag that is not empty, which is then
-- the chart's version. Each of its entries is one of the answer's: a person, with at least one below, each once and in order,
-- and these are the answer's without the person and the empty subject; and each person of the answer
-- who has others below is there.
pub read_chart-Entry :
    {T : Type 0} (n : Network T) (a : Answer) (c : Chart)
    → read_chart n a ≡ ok (some c)
    → (a.status ≡ 200)
      × (is_empty c.version ≡ false)
      × (c.version ≡ get_header a.headers (codes "ETag"))
      × (answered : Below) × (n.decode_chart a.body ≡ some answered)
      × All (Entry answered) c.below
      × Complete answered c.below
unfolding read_chart
read_chart-Entry n a c h =
    let etag = get_header a.headers (codes "ETag") in
    let (good, versioned, made) =
      guards (nat_eq a.status 304) (nat_eq a.status 200) (is_empty etag)
        (copied etag (n.decode_chart a.body)) a h in
    let (answered, decoded, version, entries, complete) =
      copied-ok etag (n.decode_chart a.body) c made in
    (
      (nat_eq_iff a.status 200).0 good,
      ap is_empty version ∙ versioned,
      version,
      answered,
      decoded,
      entries,
      complete,
    )
  where
    guards :
        (b c1 e : Bool) (x : Result RegisterError (Option Chart)) (a : Answer)
        → (if b
            then ok none
            else if not c1
            then err (refused a.status a.body)
            else if e
            then err no_version
            else x)
          ≡ ok (some c)
        → (c1 ≡ true) × (e ≡ false) × (x ≡ ok (some c))
    guards true c1 e x a h = cc
    guards false false e x a h = cc
    guards false true true x a h = cc
    guards false true false x a h = (refl, refl, h)
