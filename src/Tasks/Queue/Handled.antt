-- ===== src/Tasks/Queue/Handled.antt =====
-- A task that was taken once is not taken again, whatever the order of the round trips.
use common_build.Common.{
  not, All-imp, ◌≡◌, refl, sym, List, [], ◌∷◌, All, Bool, true, false, Bool-cases, inl, inr, ◌||◌,
  if◌then◌else◌, Option, some, ap, ◌∙◌, or_true, or_false,
}
use common_build.Common.Text.{Text, ◌==◌, eq_sound, eq-true, codes}
use common_build.Redis.Commands.{is_some}
use common_build.Tasks.Commands.{TaskStore, handled_key, set_at, same_task_key, set_nx}
use common_build.Tasks.Redis.{documented}
use common_build.Tasks.Queue.{cons_if, Entry, take_one, take_all}

-- Whether the flag of a task is set.
abbrev pub is_handled : Text → TaskStore → Bool
is_handled uid s = is_some (s.strings (handled_key uid))

set-is_some :
    (b : Bool) (o : Option Text) (t : Text) → is_some (if b then some t else o) ≡ is_some o || b
set-is_some true o t = sym (or_true (is_some o))
set-is_some false o t = sym (or_false (is_some o))

same-is_handled :
    (u v : Text) (s : TaskStore) (b : Bool)
    → (u == v) ≡ b
    → is_handled u s ≡ true
    → is_handled v s ≡ is_handled v s || b
same-is_handled u v s true e h = rw (sym (ap (λ w. is_handled w s) (eq_sound u v e)), h) refl
same-is_handled u v s false e h = sym (or_false (is_handled v s))

pub take_one-handled :
    (u v : Text) (s : TaskStore)
    → is_handled v (take_one documented u s).1 ≡ is_handled v s || (u == v)
unfolding take_one set_nx set_at same_task_key
take_one-handled u v s = elim (Bool-cases (is_some (s.strings (handled_key u)))) [
  | inl h ↦ rw h (same-is_handled u v s (u == v) refl h)
  | inr h ↦ simp (h, set-is_some (u == v) (s.strings (handled_key v)) (codes "dummy"))
]

pub take_one-to_be_handled :
    (u : Text) (s : TaskStore)
    → ((take_one documented u s).0.0 ≡ not (is_handled u s))
      × ((take_one documented u s).0.1.uid ≡ u)
unfolding take_one set_nx
take_one-to_be_handled u s = elim (Bool-cases (is_some (s.strings (handled_key u)))) [
  | inl h ↦ rw h (refl, refl)
  | inr h ↦ rw h (refl, refl)
]

take_one-keeps :
    (u v : Text) (s : TaskStore)
    → is_handled v s ≡ true
    → is_handled v (take_one documented u s).1 ≡ true
take_one-keeps u v s h = rw (take_one-handled u v s, h) refl

pub take_all-keeps :
    (uids : List Text) (v : Text) (s : TaskStore)
    → is_handled v s ≡ true
    → is_handled v (take_all documented uids s).1 ≡ true
unfolding take_all
take_all-keeps [] v s h = h
take_all-keeps (u ∷ uids) v s h =
    take_all-keeps uids v (take_one documented u s).1 (take_one-keeps u v s h)

-- An entry's task was not handled before, and is handled then.
abbrev pub IsTaken : TaskStore → TaskStore → Entry → Type 0
IsTaken s t e = (is_handled e.uid s ≡ false) × (is_handled e.uid t ≡ true)

not_kept :
    (u v : Text) (s : TaskStore)
    → is_handled v (take_one documented u s).1 ≡ false
    → is_handled v s ≡ false
not_kept u v s h = elim (Bool-cases (is_handled v s)) [
  | inl k ↦ let kept = take_one-keeps u v s k in cc
  | inr k ↦ k
]

All-cons_if :
    (P : Entry → Type 0) (b : Bool) (e : Entry) (es : List Entry)
    → (b ≡ true → P e)
    → All P es
    → All P (cons_if b e es)
All-cons_if P true e es h k = (h refl, k)
All-cons_if P false e es h k = k

not-true : (b : Bool) → not b ≡ true → b ≡ false
not-true true h = sym h
not-true false h = refl

take_one-IsTaken :
    (u : Text) (uids : List Text) (s : TaskStore)
    → (take_one documented u s).0.0 ≡ true
    → IsTaken s
        (take_all documented uids (take_one documented u s).1).1
        (take_one documented u s).0.1
take_one-IsTaken u uids s h =
    let (fresh, uid) = take_one-to_be_handled u s in
    rw uid (
      not-true (is_handled u s) (sym fresh ∙ h),
      take_all-keeps uids u (take_one documented u s).1
          (rw (take_one-handled u u s, eq-true u) (or_true (is_handled u s))),
    )

pub take_all-IsTaken :
    (uids : List Text) (s : TaskStore)
    → All (IsTaken s (take_all documented uids s).1) (take_all documented uids s).0
unfolding take_all
take_all-IsTaken [] s = tt
take_all-IsTaken (u ∷ uids) s =
    All-cons_if _ (take_one documented u s).0.0 (take_one documented u s).0.1 _
      (take_one-IsTaken u uids s)
      (All-imp (λ e h. (not_kept u e.uid s h.0, h.1)) _
        (take_all-IsTaken uids (take_one documented u s).1))
