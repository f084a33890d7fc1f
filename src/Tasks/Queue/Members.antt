-- ===== src/Tasks/Queue/Members.antt =====
-- The members of a sorted set: what inserting and removing one does to them.
use common_build.Common.{
  ◌≡◌, refl, sym, ap, List, [], ◌∷◌, All, Elem, Bool, true, false, ℕ, zero, suc, ◌≤◌, Bool-cases,
  inl, inr, map, keep, take, length, arith,
}
use common_build.Common.Text.{Text, ◌==◌, eq_sound}
use common_build.Common.Int.{ℤ}
use common_build.Redis.Commands.{zinsert, zremove, before}

abbrev pub members : List (Text × ℤ) → List Text
members l = map (λ e. e.0) l

-- A member stays when another is inserted, and the inserted one is there.
pub Elem-zinsert : (e f : Text × ℤ) (l : List (Text × ℤ)) → Elem f l → Elem f (zinsert e l)
unfolding zinsert
Elem-zinsert e f (g ∷ l) h = elim (Bool-cases (before e g)) [
  | inl b ↦ rw b (inr h)
  | inr b ↦ rw b (elim h [ inl k ↦ inl k | inr k ↦ inr (Elem-zinsert e f l k) ])
]
Elem-zinsert e f [] h = elim h [ ]

pub Elem-zinsert-own : (e : Text × ℤ) (l : List (Text × ℤ)) → Elem e (zinsert e l)
unfolding zinsert
Elem-zinsert-own e [] = inl refl
Elem-zinsert-own e (g ∷ l) = elim (Bool-cases (before e g)) [
  | inl b ↦ rw b (inl refl)
  | inr b ↦ rw b (inr (Elem-zinsert-own e l))
]

pub length-zinsert : (e : Text × ℤ) (l : List (Text × ℤ)) → length (zinsert e l) ≡ suc (length l)
unfolding zinsert
length-zinsert e [] = refl
length-zinsert e (g ∷ l) = elim (Bool-cases (before e g)) [
  | inl b ↦ rw b refl
  | inr b ↦ rw b (ap suc (length-zinsert e l))
]

pub length-zremove : (m : Text) (l : List (Text × ℤ)) → length (zremove m l) ≤ length l
unfolding zremove
length-zremove m [] = omega arith
length-zremove m ((n, s) ∷ l) = elim (Bool-cases (n == m)) [
  | inl b ↦ rw b (omega (arith, length-zremove m l))
  | inr b ↦ rw b (omega (arith, length-zremove m l))
]

-- Removing a member leaves none of its name, and every other one.
pub zremove-removed :
    (m : Text) (l : List (Text × ℤ)) → All (λ n. (n == m) ≡ false) (members (zremove m l))
unfolding zremove
zremove-removed m [] = tt
zremove-removed m ((n, s) ∷ l) = elim (Bool-cases (n == m)) [
  | inl b ↦ rw b (zremove-removed m l)
  | inr b ↦ rw b (b, zremove-removed m l)
]

pub Elem-members : (e : Text × ℤ) (l : List (Text × ℤ)) → Elem e l → Elem e.0 (members l)
Elem-members e [] h = elim h [ ]
Elem-members e (f ∷ l) (inl h) = inl (ap (λ x. x.0) h)
Elem-members e (f ∷ l) (inr h) = inr (Elem-members e l h)

pub Elem-keep :
    {A : Type 0} (p : A → Bool) (a : A) (xs : List A) → p a ≡ true → Elem a xs → Elem a (keep p xs)
Elem-keep p a [] h k = elim k [ ]
Elem-keep p a (x ∷ xs) h (inl k) = rw (sym k, h) (inl refl)
Elem-keep p a (x ∷ xs) h (inr k) = elim (Bool-cases (p x)) [
  | inl b ↦ rw b (inr (Elem-keep p a xs h k))
  | inr b ↦ rw b (Elem-keep p a xs h k)
]

pub length-keep-le : {A : Type 0} (p : A → Bool) (xs : List A) → length (keep p xs) ≤ length xs
length-keep-le p [] = omega arith
length-keep-le p (x ∷ xs) = elim (Bool-cases (p x)) [
  | inl b ↦ rw b (omega (arith, length-keep-le p xs))
  | inr b ↦ rw b (omega (arith, length-keep-le p xs))
]

pub length-members : (l : List (Text × ℤ)) → length (members l) ≡ length l
length-members [] = refl
length-members (e ∷ l) = ap suc (length-members l)

pub take-all : {A : Type 0} (n : ℕ) (xs : List A) → length xs ≤ n → take n xs ≡ xs
take-all zero [] h = refl
take-all (suc n) [] h = refl
take-all zero (x ∷ xs) h = let absurd : ⊥ = omega arith in elim absurd [ ]
take-all (suc n) (x ∷ xs) h = ap (λ l. x ∷ l) (take-all n xs (omega arith))

pub All-zremove :
    (P : Text → Type 0) (m : Text) (l : List (Text × ℤ))
    → All P (members l)
    → All P (members (zremove m l))
unfolding zremove
All-zremove P m [] h = tt
All-zremove P m ((n, s) ∷ l) (p, h) = elim (Bool-cases (n == m)) [
  | inl b ↦ rw b (All-zremove P m l h)
  | inr b ↦ rw b (p, All-zremove P m l h)
]

pub Elem-members-zinsert :
    (e : Text × ℤ) (m : Text) (l : List (Text × ℤ))
    → Elem m (members l)
    → Elem m (members (zinsert e l))
unfolding zinsert
Elem-members-zinsert e m [] h = elim h [ ]
Elem-members-zinsert e m (g ∷ l) h = elim (Bool-cases (before e g)) [
  | inl b ↦ rw b (inr h)
  | inr b ↦ rw b (elim h [ inl k ↦ inl k | inr k ↦ inr (Elem-members-zinsert e m l k) ])
]

other_member :
    (k n m : Text) (l : List (Text × ℤ))
    → (k == n) ≡ true
    → (m == n) ≡ false
    → Elem m (k ∷ members l)
    → Elem m (members l)
other_member k n m l same other (inl e) = let moved = ap (λ w. w == n) e in cc
other_member k n m l same other (inr h) = h

pub Elem-members-zremove :
    (n m : Text) (l : List (Text × ℤ))
    → (m == n) ≡ false
    → Elem m (members l)
    → Elem m (members (zremove n l))
unfolding zremove
Elem-members-zremove n m [] other h = elim h [ ]
Elem-members-zremove n m ((k, s) ∷ l) other h = elim (Bool-cases (k == n)) [
  | inl b ↦ rw b (Elem-members-zremove n m l other (other_member k n m l b other h))
  | inr b ↦ rw b (elim h [ inl e ↦ inl e | inr e ↦ inr (Elem-members-zremove n m l other e) ])
]

pub Elem-zadd :
    (m n : Text) (score : ℤ) (l : List (Text × ℤ))
    → Elem n (members l)
    → Elem n (members (zinsert (m, score) (zremove m l)))
Elem-zadd m n score l h = elim (Bool-cases (n == m)) [
  | inl e ↦ rw (eq_sound n m e) (
      Elem-members (m, score) (zinsert (m, score) (zremove m l))
        (Elem-zinsert-own (m, score) (zremove m l)))
  | inr e ↦ Elem-members-zinsert (m, score) n (zremove m l) (Elem-members-zremove m n l e h)
]

pub All-tabulate : (P : Text → Type 0) (xs : List Text) → ((m : Text) → Elem m xs → P m) → All P xs
All-tabulate P [] f = tt
All-tabulate P (x ∷ xs) f = (f x (inl refl), All-tabulate P xs (λ m h. f m (inr h)))
