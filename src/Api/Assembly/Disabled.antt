-- ===== src/Api/Assembly/Disabled.antt =====
-- Integrations that are switched off.
use portal_conductor.Base.{
  ℕ, String, ◌≡◌, refl, Bool, true, false, List, [], ◌∷◌, ◌⊎◌, inl, inr, All,
}
use portal_conductor.Config.{Config}
use portal_conductor.Config.Validation.{terrain_async_configured}
use portal_conductor.External.{as_http_error}
use portal_conductor.External.Effect.{Result, ok, err, fail, lift, ◌>>=◌, ◌>>◌, Call}
use portal_conductor.Api.{Request, Response, Handler}
use portal_conductor.Api.Errors.{handle, response_of, error_response}
use portal_conductor.Api.Async.{
  ensure_async_configured, delete_user_async, get_deletion_status, list_deletion_analyses,
  get_analysis_details,
}
use portal_conductor.Api.Async.AnalysisId.{analysis_id_param}
use portal_conductor.Api.Async.AnalysisId.Shape.{IsUuid, Checked, analysis_id_param-IsUuid}
use portal_conductor.Api.MailingLists.{
  require_mailman, list_mailing_list_members, add_to_mailing_list, remove_from_mailing_list,
  check_email_in_mailing_list,
}
use portal_conductor.Api.Router.Table.{Handlers}
use portal_conductor.Api.Portal.Creation.{Services}
use portal_conductor.Api.Assembly.{Api, Surroundings, handlers}

-- What can be switched off in the configuration.
pub data Integration : Type 0 where
  mailing_lists async_deletion : Integration

abbrev pub is_on : Config → Integration → Bool
is_on cfg mailing_lists = cfg.mailman.enabled
is_on cfg async_deletion = terrain_async_configured cfg

-- The endpoints of an integration; true where the path has the identifier of an analysis.
abbrev pub endpoints : {W : Type 0} → Handlers W → Integration → List (Bool × Handler W)
endpoints h mailing_lists =
    (false, h.list_mailing_list_members)
    ∷ (false, h.add_to_mailing_list)
    ∷ (false, h.remove_from_mailing_list)
    ∷ (false, h.check_email_in_mailing_list)
    ∷ []
endpoints h async_deletion =
    (false, h.delete_user_async)
    ∷ (true, h.get_deletion_status)
    ∷ (false, h.list_analyses)
    ∷ (true, h.get_analysis_details)
    ∷ []

-- The status of an endpoint that is switched off.
abbrev pub OffStatus : Bool → Request → ℕ → Type 0
OffStatus false r status = status ≡ 503
OffStatus true r status =
    ((status ≡ 503) × IsUuid (r.path_value "analysis_id"))
    ⊎ ((status ≡ 422) × ¬ IsUuid (r.path_value "analysis_id"))

abbrev pub IsUnavailable : {W : Type 0} → Bool → Request → Response × W → W → Type 0
IsUnavailable has_id r answer w = (answer.1 ≡ w) × OffStatus has_id r answer.0.status

module _ {W LdapConn Fs Tx Conn Session : Type 0} (S : Services W LdapConn Fs)
    (O : Surroundings W Conn Session) (a : Api W Tx) where
  -- An endpoint that checks the identifier and then the configuration.
  id_checked :
      (rest : String → Call W Response) (r : Request) (w : W)
      → terrain_async_configured a.cfg ≡ false
      → IsUnavailable true r
          (handle
            (λ r. lift (analysis_id_param r) >>= λ id.
              ensure_async_configured S.http S.terrain_memory O.app_memory a.terrain a.cfg O.floats
                O.equal_fold O.shown
              >> rest id)
            r
            w)
          w
  unfolding handle response_of error_response as_http_error ◌>>=◌ fail lift ensure_async_configured
  id_checked rest r w off = by_check (analysis_id_param r) refl (analysis_id_param-IsUuid r)
    where
      by_check :
          (o : Result String)
          → analysis_id_param r ≡ o
          → Checked (r.path_value "analysis_id") o
          → IsUnavailable true r
              (handle
                (λ r. lift (analysis_id_param r) >>= λ id.
                  ensure_async_configured S.http S.terrain_memory O.app_memory a.terrain a.cfg
                    O.floats O.equal_fold O.shown
                  >> rest id)
                r
                w)
              w
      by_check (ok s) k (same, uuid) = rw (k, off) (refl, inl (refl, uuid))
      by_check (err e) k (same, other) = rw (k, same) (refl, inr (refl, other))

  -- The endpoints of an integration that is switched off change nothing and answer every request by the
  -- status 503; but the two whose path has the identifier of an analysis answer by 422 exactly where it
  -- is no UUID.
  pub handlers-IsUnavailable :
      (f : Integration)
      → is_on a.cfg f ≡ false
      → All
          (λ e. (r : Request) (w : W) → IsUnavailable e.0 r (handle e.1 r w) w)
          (endpoints (handlers S O a) f)
  unfolding handlers handle response_of error_response as_http_error ◌>>=◌ fail
      list_mailing_list_members add_to_mailing_list remove_from_mailing_list
      check_email_in_mailing_list require_mailman delete_user_async get_deletion_status
      list_deletion_analyses get_analysis_details ensure_async_configured lift
  handlers-IsUnavailable mailing_lists off = (
    λ r w. rw off (refl, refl),
    (λ r w. rw off (refl, refl), (λ r w. rw off (refl, refl), (λ r w. rw off (refl, refl), tt))),
  )
  handlers-IsUnavailable async_deletion off = (
    λ r w. rw off (refl, refl),
    (λ r w. id_checked _ r w off, (λ r w. rw off (refl, refl), (λ r w. id_checked _ r w off, tt))),
  )
