-- ===== src/Dependencies/Update.antt =====
-- `update` sets what one repository depends on, in both directions, and nothing else.
use common_build.Common.{
  ◌≡◌, refl, sym, ap, ◌∙◌, Bool, not, true, false, ◌&&◌, ◌||◌, List, [], ◌∷◌, if◌then◌else◌,
  Bool-cases, inl, inr, or_false,
}
use common_build.Common.Text.{Text, ◌==◌, eq_iff, eq-true}
use common_build.Lodash.{Lodash}
use common_build.Lodash.Laws as LodashLaws
use common_build.Lodash.Functions.{includes, difference}
use common_build.Dependencies.{
  RedisSets, AllSets, of_source, of_ref, add_listener, remove_listener, update_serialized, add_new,
}
use common_build.Dependencies.Laws.{documented, of_documented}
use common_build.Dependencies.Sets.{put_set, add_members, sadd, smembers, del}
use common_build.Dependencies.Index.{
  or_assoc, includes-cons-if, includes-keep, add_listener-of_source, remove_listener-of_source,
  add_listener-of_ref, remove_listener-of_ref,
}

-- A source is in the set of a ref exactly if the ref is in the set of the source.
abbrev pub IsIndexed : AllSets → Type 0
IsIndexed s = (x r : Text) → includes (s (of_ref r)) x ≡ includes (s (of_source x)) r

-- What `update` promises: the source depends on the new refs, the other sources on what they did,
-- and the sets of the refs agree.
pub record UpdateEffect (x : Text) (new : List Text) (s t : AllSets) : Type 0 where
  pub own : (r : Text) → includes (t (of_source x)) r ≡ includes new r
  pub others : (y r : Text) → (x == y) ≡ false → t (of_source y) ≡ s (of_source y)
  pub indexed : IsIndexed t

includes-add_members :
    (ms l : List Text) (r : Text) → includes (add_members ms l) r ≡ includes l r || includes ms r
unfolding add_members
includes-add_members [] l r = sym (or_false (includes l r))
includes-add_members (m ∷ ms) l r =
    includes-add_members ms (if includes l m then l else m ∷ l) r
    ∙ ap (λ b. b || includes ms r) (includes-cons-if l m r)
    ∙ or_assoc (includes l r) (m == r) (includes ms r)

module _ (x : Text) (new : List Text) (s : AllSets) where
  abbrev fresh : AllSets
  fresh = add_new documented (of_source x) new (del (of_source x) s)

  fresh-own : (r : Text) → includes (fresh (of_source x)) r ≡ includes new r
  unfolding del put_set sadd
  fresh-own r = go new
    where
      go :
          (ms : List Text)
          → includes (add_new documented (of_source x) ms (del (of_source x) s) (of_source x)) r
            ≡ includes ms r
      go [] = rw (eq-true x) refl
      go (m ∷ ms) = rw (eq-true x) (includes-add_members (m ∷ ms) [] r)

  fresh-others : (y : Text) → (x == y) ≡ false → fresh (of_source y) ≡ s (of_source y)
  unfolding del put_set sadd
  fresh-others y e = go new
    where
      go :
          (ms : List Text)
          → add_new documented (of_source x) ms (del (of_source x) s) (of_source y)
            ≡ s (of_source y)
      go [] = rw e refl
      go (m ∷ ms) = rw e refl

  fresh-refs : (r : Text) → fresh (of_ref r) ≡ s (of_ref r)
  unfolding del put_set sadd
  fresh-refs r = go new
    where
      go :
          (ms : List Text)
          → add_new documented (of_source x) ms (del (of_source x) s) (of_ref r) ≡ s (of_ref r)
      go [] = refl
      go (m ∷ ms) = refl

  abbrev to_add : List Text
  to_add = difference new (s (of_source x))

  abbrev to_remove : List Text
  to_remove = difference (s (of_source x)) new

  abbrev updated : AllSets
  updated = remove_listener documented x to_remove (add_listener documented x to_add fresh)

  updated-of_source : (y : Text) → updated (of_source y) ≡ fresh (of_source y)
  updated-of_source y =
      remove_listener-of_source x to_remove (add_listener documented x to_add fresh) y
      ∙ add_listener-of_source x to_add fresh y

  updated-of_ref :
      (r y : Text)
      → includes (updated (of_ref r)) y
        ≡ (includes (s (of_ref r)) y || (includes to_add r && (x == y)))
          && not (includes to_remove r && (x == y))
  updated-of_ref r y =
      remove_listener-of_ref x r y to_remove (add_listener documented x to_add fresh)
      ∙ ap (λ b. b && not (includes to_remove r && (x == y)))
          (add_listener-of_ref x r y to_add fresh
            ∙ ap (λ l. includes l y || (includes to_add r && (x == y))) (fresh-refs r))

  unchanged : (b p q : Bool) → (b || (p && false)) && not (q && false) ≡ b
  unchanged true p true = refl
  unchanged true p false = refl
  unchanged false true q = refl
  unchanged false false q = refl

  exchanged : (e n : Bool) → (e || ((n && not e) && true)) && not ((e && not n) && true) ≡ n
  exchanged true true = refl
  exchanged true false = refl
  exchanged false true = refl
  exchanged false false = refl

  updated-IsIndexed : IsIndexed s → IsIndexed updated
  updated-IsIndexed h y r = elim (Bool-cases (x == y)) [
    | inr e ↦
        updated-of_ref r y
        ∙ rw e (unchanged (includes (s (of_ref r)) y) (includes to_add r) (includes to_remove r))
        ∙ h y r
        ∙ sym (ap (λ l. includes l r) (updated-of_source y ∙ fresh-others y e))
    | inl e ↦
        let k : x ≡ y = (eq_iff x y).0 e in
        updated-of_ref r y
        ∙ rw
            (
              e,
              h y r,
              includes-keep (λ t. not (includes (s (of_source x)) t)) new r,
              includes-keep (λ t. not (includes new t)) (s (of_source x)) r,
              sym k,
            )
            (exchanged (includes (s (of_source x)) r) (includes new r))
        ∙ sym (
            ap (λ z. includes (updated (of_source z)) r) (sym k)
            ∙ ap (λ l. includes l r) (updated-of_source x)
            ∙ fresh-own r)
  ]

  updated-UpdateEffect : IsIndexed s → UpdateEffect x new s updated
  updated-UpdateEffect h = record {
    own = λ r. ap (λ l. includes l r) (updated-of_source x) ∙ fresh-own r;
    others = λ y r e. updated-of_source y ∙ fresh-others y e;
    indexed = updated-IsIndexed h;
  }

-- If the two directions agree, then after `update` the source depends on exactly the new refs, the
-- other sources depend on what they did, and the two directions agree.
pub update_serialized-UpdateEffect :
    (redis : RedisSets) (lodash : Lodash) (x : Text) (new : List Text) (s : AllSets)
    → IsIndexed s
    → UpdateEffect x new s (update_serialized redis lodash x new s)
unfolding update_serialized
update_serialized-UpdateEffect redis lodash x new s h =
    of_documented (λ r. UpdateEffect x new s (update_serialized r lodash x new s))
      (LodashLaws.of_documented (λ l. UpdateEffect x new s (update_serialized documented l x new s))
        (unfold smembers in updated-UpdateEffect x new s h) lodash)
      redis
