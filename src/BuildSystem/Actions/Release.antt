-- ===== src/BuildSystem/Actions/Release.antt =====
-- When the calculated action is to release.
use common_build.Common.{
  ◌≡◌, ◌↔◌, refl, sym, ap, ◌∙◌, inl, inr, Bool, true, false, ◌&&◌, ◌||◌, List, [], ◌∷◌, ◌++◌, map,
  any, none, some, Bool-cases,
}
use common_build.Common.Text.{Text, ◌==◌}
use common_build.BuildSystem.Actions.{
  PostAction, nothing, merge, release, same_action, LabelAction, includes, includes_action,
  valid_actions, all_actions, strongest, calculate_action, default_tool_label,
}

-- Whether an action is configured for a label of the change
abbrev pub is_wanted : List Text → PostAction → List LabelAction → Bool
is_wanted update_labels action config_actions =
    any (λ ca. includes update_labels ca.id && same_action ca.action action) config_actions

strongest-release :
    (actions : List PostAction)
    → (strongest actions ≡ some release) ↔ (includes_action actions release ≡ true)
strongest-release actions = elim (Bool-cases (includes_action actions release)) [
  | inl h ↦ (λ _. h, λ _. rw h refl)
  | inr h ↦ (λ e. other h e, λ k. let no : false ≡ true = sym h ∙ k in cc)
]
  where
    other :
        includes_action actions release ≡ false
        → strongest actions ≡ some release
        → includes_action actions release ≡ true
    other h e = elim (Bool-cases (includes_action actions merge)) [
      | inl m ↦ let no : some merge ≡ some release = rw (h, m) at e in cc
      | inr m ↦ elim (Bool-cases (includes_action actions nothing)) [
        | inl n ↦ let no : some nothing ≡ some release = rw (h, m, n) at e in cc
        | inr n ↦ let no : none ≡ some release = rw (h, m, n) at e in cc
      ]
    ]

includes-valid :
    (update_labels : List Text) (action : PostAction) (config_actions : List LabelAction)
    → includes_action (map (λ ca. ca.action) (valid_actions update_labels config_actions)) action
      ≡ is_wanted update_labels action config_actions
includes-valid update_labels action [] = refl
includes-valid update_labels action (ca ∷ cas) = elim (Bool-cases (includes update_labels ca.id)) [
  | inl h ↦
      rw h (ap (λ b. same_action ca.action action || b) (includes-valid update_labels action cas))
  | inr h ↦ rw h (includes-valid update_labels action cas)
]

includes-append-merge :
    (actions : List PostAction)
    → includes_action (actions ++ merge ∷ []) release ≡ includes_action actions release
unfolding same_action
includes-append-merge [] = refl
includes-append-merge (a ∷ actions) =
    ap (λ b. same_action a release || b) (includes-append-merge actions)

includes-all_actions :
    (update_labels : List Text) (config_actions : List LabelAction)
    → includes_action (all_actions update_labels config_actions) release
      ≡ is_wanted update_labels release config_actions
unfolding all_actions
includes-all_actions update_labels config_actions =
    let valid = includes-valid update_labels release config_actions in
    elim (Bool-cases
      (any (λ ca. ca.id == default_tool_label) (valid_actions update_labels config_actions))) [
        | inl h ↦ rw h valid
        | inr h ↦ elim (Bool-cases (includes update_labels default_tool_label)) [
          | inl k ↦
              rw (h, k)
                (includes-append-merge
                    (map (λ ca. ca.action) (valid_actions update_labels config_actions))
                  ∙ valid)
          | inr k ↦ rw (h, k) valid
        ]
      ]

-- The action that is calculated for a change is to release exactly if some entry of the
-- configuration that is for a label of the change says so: whatever else is configured for its
-- labels, and whatever the label of the build tools adds.
pub calculate_action-release_iff :
    (update_labels : List Text) (config_actions : List LabelAction)
    → (calculate_action update_labels config_actions ≡ some release)
      ↔ (is_wanted update_labels release config_actions ≡ true)
unfolding calculate_action
calculate_action-release_iff update_labels config_actions =
    let (to, from) = strongest-release (all_actions update_labels config_actions) in
    let same = includes-all_actions update_labels config_actions in
    (λ e. sym same ∙ to e, λ k. from (same ∙ k))
