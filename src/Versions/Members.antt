-- ===== src/Versions/Members.antt =====
-- The container as a set of versions.
use common_build.Common.{
  ℕ, ◌≡◌, ◌⊎◌, refl, ◌≢◌, All, ap, sym, ◌∙◌, ◌==◌, List, [], ◌∷◌, ◌++◌, any, Bool, true, false,
  ◌&&◌, ◌||◌, Bool-cases, inl, inr, arith, ==_iff,
}
use common_build.Domain.Version.{Version}
use common_build.Versions.{
  ModelComposite, Branches, composite, no_branches, holder, empty, change_holder, push_release, add,
  add_all, from_versions,
}

abbrev pub same_segments : List ℕ → List ℕ → Bool
same_segments [] [] = true
same_segments [] (_ ∷ _) = false
same_segments (_ ∷ _) [] = false
same_segments (x ∷ xs) (y ∷ ys) = (x == y) && same_segments xs ys

-- Whether the segments are those of a version in the container, which has no version without
-- segments.
unfoldable mutual
  pub has : List ℕ → ModelComposite → Bool
  has [] (composite bs releases) = false
  has (part ∷ []) (composite bs releases) = any (λ r. r == part) releases
  has (head ∷ next ∷ rest) (composite bs releases) = has_in head (next ∷ rest) bs

  pub has_in : ℕ → List ℕ → Branches → Bool
  has_in head rest no_branches = false
  has_in head rest (holder index model later) =
      ((index == head) && has rest model) || has_in head rest later

any-append : (p : ℕ → Bool) (xs ys : List ℕ) → any p (xs ++ ys) ≡ any p xs || any p ys
any-append p [] ys = refl
any-append p (x ∷ xs) ys = ground (arith, any-append p xs ys)

or_false : (b : Bool) → b || false ≡ b
or_false true = refl
or_false false = refl

or_assoc : (a b c : Bool) → a || (b || c) ≡ (a || b) || c
or_assoc true b c = refl
or_assoc false b c = refl

move_right : (a x r s : Bool) → (a && (x || s)) || r ≡ ((a && x) || r) || (a && s)
move_right false x r s = sym (or_false r)
move_right true true r s = refl
move_right true false true true = refl
move_right true false true false = refl
move_right true false false true = refl
move_right true false false false = refl

unchanged : (x b : Bool) → x ≡ x || (b && false)
unchanged true b = refl
unchanged false true = refl
unchanged false false = refl

has-empty : (q : List ℕ) → has q empty ≡ false
unfolding has
has-empty [] = refl
has-empty (a ∷ []) = refl
has-empty (a ∷ b ∷ c) = refl

any-== : (a b : ℕ) (rs : List ℕ) → (a == b) ≡ true → any (λ r. r == a) rs ≡ any (λ r. r == b) rs
any-== a b rs h = ap (λ x. any (λ r. r == x) rs) ((==_iff a b).0 h)

any-push_release :
    (part p : ℕ) (releases : List ℕ)
    → any (λ r. r == p) (push_release part releases)
      ≡ any (λ r. r == p) releases || ((part == p) && true)
unfolding push_release
any-push_release part p releases = elim (Bool-cases (any (λ r. r == part) releases)) [
  | inl t ↦ rw t (present (Bool-cases (part == p)) t)
  | inr f ↦ rw (f, any-append (λ r. r == p) releases (part ∷ [])) (last (part == p))
]
  where
    last :
        (b : Bool)
        → any (λ r. r == p) releases || (b || false) ≡ any (λ r. r == p) releases || (b && true)
    last true = refl
    last false = refl

    present :
        ((part == p) ≡ true) ⊎ ((part == p) ≡ false)
        → any (λ r. r == part) releases ≡ true
        → any (λ r. r == p) releases ≡ any (λ r. r == p) releases || ((part == p) && true)
    present (inl e) t = let k = any-== part p releases e in rw (e, sym k ∙ t) refl
    present (inr e) t = rw e (sym (or_false (any (λ r. r == p) releases)))

module _ (f : ModelComposite → ModelComposite) (q : List ℕ) (s : Bool)
    (h : (m : ModelComposite) → has q (f m) ≡ has q m || s) where
  has_in-change_holder :
      (head a : ℕ) (bs : Branches)
      → has_in a q (change_holder f head bs) ≡ has_in a q bs || ((head == a) && s)
  unfolding change_holder has
  has_in-change_holder head a no_branches =
      or_false ((head == a) && has q (f empty))
      ∙ ap (λ b. (head == a) && b) (h empty ∙ ap (λ b. b || s) (has-empty q))
  has_in-change_holder head a (holder index model rest) = elim (Bool-cases (index == head)) [
    | inl t ↦
        rw (t, h model)
          (move_right (index == a) (has q model) (has_in a q rest) s
            ∙ ap (λ x. ((index == a) && has q model || has_in a q rest) || ((x == a) && s))
                ((==_iff index head).0 t))
    | inr e ↦
        rw (e, has_in-change_holder head a rest)
          (or_assoc ((index == a) && has q model) (has_in a q rest) ((head == a) && s))
  ]

-- Adding segments makes them a member of the container and changes no other membership.
has-add :
    (head : ℕ) (rest q : List ℕ) (m : ModelComposite)
    → has q (add (head ∷ rest) m) ≡ has q m || same_segments (head ∷ rest) q
unfolding has add
has-add head [] [] (composite bs releases) = refl
has-add head [] (p ∷ []) (composite bs releases) = any-push_release head p releases
has-add head [] (a ∷ b ∷ c) (composite bs releases) = unchanged (has_in a (b ∷ c) bs) (head == a)
has-add head (next ∷ rest) [] (composite bs releases) = refl
has-add head (next ∷ rest) (p ∷ []) (composite bs releases) =
    unchanged (any (λ r. r == p) releases) (head == p)
has-add head (next ∷ rest) (a ∷ b ∷ c) (composite bs releases) =
    has_in-change_holder (add (next ∷ rest)) (b ∷ c) (same_segments (next ∷ rest) (b ∷ c))
      (has-add next rest (b ∷ c)) head a bs

abbrev pub HasSegments : Version → Type 0
HasSegments v = v.segments ≢ []

has-add_version :
    (segments q : List ℕ) (m : ModelComposite)
    → segments ≢ []
    → has q (add segments m) ≡ has q m || same_segments segments q
has-add_version [] q m h = absurd (h refl)
has-add_version (s ∷ segments) q m h = has-add s segments q m

has-add_all :
    (q : List ℕ) (vs : List Version) (m : ModelComposite)
    → All HasSegments vs
    → has q (add_all vs m) ≡ has q m || any (λ v. same_segments v.segments q) vs
unfolding add_all
has-add_all q [] m h = sym (or_false (has q m))
has-add_all q (v ∷ vs) m (n, h) =
    has-add_all q vs (add v.segments m) h
    ∙ ap (λ b. b || any (λ v. same_segments v.segments q) vs) (has-add_version v.segments q m n)
    ∙ sym
        (or_assoc (has q m) (same_segments v.segments q) (any (λ v. same_segments v.segments q) vs))

-- The container made from versions that have segments holds a list of segments exactly when it is
-- that of one of the versions.
pub has-from_versions :
    (q : List ℕ) (vs : List Version)
    → All HasSegments vs
    → has q (from_versions vs) ≡ any (λ v. same_segments v.segments q) vs
unfolding from_versions
has-from_versions q vs h =
    has-add_all q vs empty h ∙ ap (λ b. b || any (λ v. same_segments v.segments q) vs) (has-empty q)
