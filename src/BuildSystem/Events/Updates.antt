-- ===== src/BuildSystem/Events/Updates.antt =====
-- Which updates are pushed to the queue.
use common_build.Common.{
  ◌≡◌, refl, inl, inr, Bool, true, false, List, [], ◌∷◌, keep, if◌then◌else◌, Bool-cases, Option,
}
use common_build.Common.Text.{Text}
use common_build.Common.Result.{Result, ok, err, Result-cases}
use common_build.Domain.Refs.{of_sha}
use common_build.BuildSystem.Actions.{RepositoryConfig, is_active}
use common_build.BuildSystem.Effects.{Effect, Services, queue_pushed, activated}
use common_build.BuildSystem.Events.{
  Update, job_of, build_config_if_active, update_checked, on_update,
}

-- The calls that make a job known to the queue
unfoldable pub queues : Effect → Bool
queues (queue_pushed job) = true
queues (activated source) = true
queues _ = false

-- These calls, by the answers: of the cache, of the configuration's file, and of its reading
unfoldable pub update_calls :
    Text
    → Update
    → Bool
    → Result {0} Unit
    → Result (Option RepositoryConfig)
    → Result Bool
    → List Effect
update_calls system_id u is_error (err e) config has = []
update_calls system_id u is_error (ok _) (err e) has = []
update_calls system_id u is_error (ok _) (ok config) (err e) = []
update_calls system_id u is_error (ok _) (ok config) (ok false) = []
update_calls system_id u is_error (ok _) (ok config) (ok true) =
    if is_active system_id config
    then (if is_error then [] else activated u.source ∷ queue_pushed (job_of u) ∷ [])
    else []

-- Where the configuration could be read
configured :
    (system_id file_path : Text) (services : Services) (u : Update) (message : Text)
    (is_error : Bool) (config : Option RepositoryConfig) (has : Bool)
    → services.ensure_ref u.source (of_sha u.sha) u.ref_spec ≡ ok tt
    → services.repository_config u.source ≡ ok config
    → services.build_config u.source u.sha true ≡ ok has
    → (keep queues (on_update system_id file_path services u message is_error).0
        ≡ update_calls system_id u is_error
            (services.ensure_ref u.source (of_sha u.sha) u.ref_spec)
            (services.repository_config u.source)
            (services.build_config u.source u.sha true))
      × ((on_update system_id file_path services u message is_error).1 ≡ ok tt)
unfolding on_update build_config_if_active update_checked queues update_calls
configured system_id file_path services u message is_error config false h c b =
    elim (Bool-cases (is_active system_id config)) [
      | inl a ↦ rw (h, c, b, a) (refl, refl)
      | inr a ↦ rw (h, c, b, a) (refl, refl)
    ]
configured system_id file_path services u message true config true h c b =
    elim (Bool-cases (is_active system_id config)) [
      | inl a ↦ rw (h, c, b, a) (refl, refl)
      | inr a ↦ rw (h, c, b, a) (refl, refl)
    ]
configured system_id file_path services u message false config true h c b =
    elim (Bool-cases (is_active system_id config)) [
      | inr a ↦ rw (h, c, b, a) (refl, refl)
      | inl a ↦ elim (Result-cases (services.push (job_of u))) [
        | inl (m, p) ↦ rw (h, c, b, a, p) (refl, refl)
        | inr (_, p) ↦ rw (h, c, b, a, p) (refl, refl)
      ]
    ]

-- An update is pushed to the queue, its repository marked as active before, exactly if its sha could
-- be had, the repository's system is this one, its build configuration is there and could be read,
-- and the update came without an error. On every other answer neither is done. `onUpdate` is never
-- rejected, whatever the services answer, the queue included.
pub on_update-calls :
    (system_id file_path : Text) (services : Services) (u : Update) (message : Text)
    (is_error : Bool)
    → (keep queues (on_update system_id file_path services u message is_error).0
        ≡ update_calls system_id u is_error
            (services.ensure_ref u.source (of_sha u.sha) u.ref_spec)
            (services.repository_config u.source)
            (services.build_config u.source u.sha true))
      × ((on_update system_id file_path services u message is_error).1 ≡ ok tt)
unfolding on_update build_config_if_active update_checked queues update_calls
on_update-calls system_id file_path services u message is_error =
    elim (Result-cases (services.ensure_ref u.source (of_sha u.sha) u.ref_spec)) [
      | inl (m, h) ↦ rw h (refl, refl)
      | inr (_, h) ↦ elim (Result-cases (services.repository_config u.source)) [
        | inl (m, c) ↦ rw (h, c) (refl, refl)
        | inr (config, c) ↦ elim (Result-cases (services.build_config u.source u.sha true)) [
          | inl (m, b) ↦ elim (Bool-cases (is_active system_id config)) [
            | inl a ↦ rw (h, c, b, a) (refl, refl)
            | inr a ↦ rw (h, c, b, a) (refl, refl)
          ]
          | inr (has, b) ↦
              configured system_id file_path services u message is_error config has h c b
        ]
      ]
    ]
