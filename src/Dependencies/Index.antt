-- ===== src/Dependencies/Index.antt =====
-- `update` keeps the two directions of the storage in agreement.
use common_build.Common.{
  ◌≡◌, ◌⊎◌, refl, sym, ap, ◌∙◌, Bool, not, true, false, ◌&&◌, ◌||◌, List, [], ◌∷◌, keep,
  if◌then◌else◌, Bool-cases, inl, inr, or_false,
}
use common_build.Common.Text.{Text, ◌==◌, eq_iff}
use common_build.Lodash.Functions.{includes}
use common_build.Dependencies.{AllSets, of_source, of_ref, add_listener, remove_listener}
use common_build.Dependencies.Laws.{documented}
use common_build.Dependencies.Sets.{put_set, add_members, sadd, srem}

pub or_assoc : (a b c : Bool) → (a || b) || c ≡ a || (b || c)
or_assoc true b c = refl
or_assoc false b c = refl

or_comm : (a b : Bool) → a || b ≡ b || a
or_comm true true = refl
or_comm true false = refl
or_comm false true = refl
or_comm false false = refl

and_false : (a : Bool) → a && false ≡ false
and_false true = refl
and_false false = refl

and_true : (a : Bool) → a && true ≡ a
and_true true = refl
and_true false = refl

both_or : (a p q c : Bool) → (a || (p && c)) || (q && c) ≡ a || ((p || q) && c)
both_or true p q c = refl
both_or false false q c = refl
both_or false true q true = refl
both_or false true true false = refl
both_or false true false false = refl

both_and : (a p q c : Bool) → (a && not (p && c)) && not (q && c) ≡ a && not ((p || q) && c)
both_and false p q c = refl
both_and true false q c = refl
both_and true true q true = refl
both_and true true true false = refl
both_and true true false false = refl

present :
    (l : List Text) (m t : Text) → includes l m ≡ true → includes l t ≡ includes l t || (m == t)
present l m t h = elim (Bool-cases (m == t)) [
  | inl e ↦
      let k : includes l t ≡ true = ap (includes l) (sym ((eq_iff m t).0 e)) ∙ h in rw (e, k) refl
  | inr e ↦ rw e (sym (or_false (includes l t)))
]

pub includes-cons-if :
    (l : List Text) (m t : Text)
    → includes (if includes l m then l else m ∷ l) t ≡ includes l t || (m == t)
includes-cons-if l m t = elim (Bool-cases (includes l m)) [
  | inl h ↦ rw h (present l m t h)
  | inr h ↦ rw h (or_comm (m == t) (includes l t))
]

pub includes-keep :
    (p : Text → Bool) (xs : List Text) (t : Text) → includes (keep p xs) t ≡ includes xs t && p t
includes-keep p [] t = refl
includes-keep p (x ∷ xs) t = elim (Bool-cases (p x)) [
  | inl h ↦ rw (h, includes-keep p xs t) (kept (Bool-cases (x == t)) h)
  | inr h ↦ rw (h, includes-keep p xs t) (dropped (Bool-cases (x == t)) h)
]
  where
    kept :
        ((x == t) ≡ true) ⊎ ((x == t) ≡ false)
        → p x ≡ true
        → (x == t) || (includes xs t && p t) ≡ ((x == t) || includes xs t) && p t
    kept (inl e) h = rw (e, ap p (sym ((eq_iff x t).0 e)) ∙ h) refl
    kept (inr e) h = rw e refl

    dropped :
        ((x == t) ≡ true) ⊎ ((x == t) ≡ false)
        → p x ≡ false
        → includes xs t && p t ≡ ((x == t) || includes xs t) && p t
    dropped (inl e) h =
        rw (ap p (sym ((eq_iff x t).0 e)) ∙ h)
          (and_false (includes xs t) ∙ sym (and_false ((x == t) || includes xs t)))
    dropped (inr e) h = rw e refl

-- `add_listener` and `remove_listener` on one set of a ref
pub add_listener-of_source :
    (x : Text) (refs : List Text) (s : AllSets) (y : Text)
    → add_listener documented x refs s (of_source y) ≡ s (of_source y)
unfolding add_listener sadd put_set
add_listener-of_source x [] s y = refl
add_listener-of_source x (ref ∷ refs) s y =
    add_listener-of_source x refs (sadd (of_ref ref) (x ∷ []) s) y

pub remove_listener-of_source :
    (x : Text) (refs : List Text) (s : AllSets) (y : Text)
    → remove_listener documented x refs s (of_source y) ≡ s (of_source y)
unfolding remove_listener srem put_set
remove_listener-of_source x [] s y = refl
remove_listener-of_source x (ref ∷ refs) s y =
    remove_listener-of_source x refs (srem (of_ref ref) (x ∷ []) s) y

sadd-of_ref :
    (x ref : Text) (s : AllSets) (r y : Text)
    → includes (sadd (of_ref ref) (x ∷ []) s (of_ref r)) y
      ≡ includes (s (of_ref r)) y || ((ref == r) && (x == y))
unfolding sadd put_set add_members
sadd-of_ref x ref s r y = elim (Bool-cases (ref == r)) [
  | inl e ↦
      let k : s (of_ref ref) ≡ s (of_ref r) = ap (λ t. s (of_ref t)) ((eq_iff ref r).0 e) in
      rw (e, k) (includes-cons-if (s (of_ref r)) x y)
  | inr e ↦ rw e (sym (or_false (includes (s (of_ref r)) y)))
]

srem-of_ref :
    (x ref : Text) (s : AllSets) (r y : Text)
    → includes (srem (of_ref ref) (x ∷ []) s (of_ref r)) y
      ≡ includes (s (of_ref r)) y && not ((ref == r) && (x == y))
unfolding srem put_set
srem-of_ref x ref s r y = elim (Bool-cases (ref == r)) [
  | inl e ↦
      let k : s (of_ref ref) ≡ s (of_ref r) = ap (λ t. s (of_ref t)) ((eq_iff ref r).0 e) in
      rw (e, k)
        (includes-keep (λ m. not (includes (x ∷ []) m)) (s (of_ref r)) y
          ∙ ap (λ b. includes (s (of_ref r)) y && not b) (or_false (x == y)))
  | inr e ↦ rw e (sym (and_true (includes (s (of_ref r)) y)))
]

module _ (x r y : Text) where
  pub add_listener-of_ref :
      (refs : List Text) (s : AllSets)
      → includes (add_listener documented x refs s (of_ref r)) y
        ≡ includes (s (of_ref r)) y || (includes refs r && (x == y))
  unfolding add_listener
  add_listener-of_ref [] s = sym (or_false (includes (s (of_ref r)) y))
  add_listener-of_ref (ref ∷ refs) s =
      add_listener-of_ref refs (sadd (of_ref ref) (x ∷ []) s)
      ∙ ap (λ b. b || (includes refs r && (x == y))) (sadd-of_ref x ref s r y)
      ∙ both_or (includes (s (of_ref r)) y) (ref == r) (includes refs r) (x == y)

  pub remove_listener-of_ref :
      (refs : List Text) (s : AllSets)
      → includes (remove_listener documented x refs s (of_ref r)) y
        ≡ includes (s (of_ref r)) y && not (includes refs r && (x == y))
  unfolding remove_listener
  remove_listener-of_ref [] s = sym (and_true (includes (s (of_ref r)) y))
  remove_listener-of_ref (ref ∷ refs) s =
      remove_listener-of_ref refs (srem (of_ref ref) (x ∷ []) s)
      ∙ ap (λ b. b && not (includes refs r && (x == y))) (srem-of_ref x ref s r y)
      ∙ both_and (includes (s (of_ref r)) y) (ref == r) (includes refs r) (x == y)
