-- ===== src/EndpointForm/Again.antt =====
-- A save of a manual endpoint, in web/src/pages/endpoint/EndpointFormPage.tsx, whose second call
-- is refused.
use tlsentinel_server.Common.{false, [], ◌∷◌, none, some, ◌≡◌, ◌≢◌, refl, ap, ◌∙◌}
use tlsentinel_server.Text.{Text, is_empty, text_eq_refl, trim}
use tlsentinel_server.Page.{answered, refused, called}
use tlsentinel_server.Client.{truthy}
use tlsentinel_server.Types.Endpoints.{Endpoint}
use tlsentinel_server.Api.Endpoints.{create_endpoint, link_certificate}
use tlsentinel_server.EndpointForm.{Route, EndpointForm, manual}
use tlsentinel_server.EndpointForm.Outcomes.{IsSavable, form_error-eq-none_iff}
use tlsentinel_server.EndpointForm.Save.{
  Server, create_request, save_calls, save_new, handle_save, link,
}

is_empty_of : (s : Text) → s ≢ [] → is_empty s ≡ false
is_empty_of [] h = absurd (h refl)
is_empty_of (c ∷ s) h = refl

handle_save-unlinked :
    (server : Server) (r : Route) (s : EndpointForm) (ep : Endpoint) (message : Text)
    → truthy r.id ≡ none
    → IsSavable s
    → s.type ≡ manual
    → trim s.pem ≢ []
    → server.create (create_request s) ≡ answered ep
    → server.link ep.id (trim s.pem) ≡ refused message
    → handle_save server r s ≡ (
      record s { error = some message; saving = false },
      called (create_endpoint (create_request s))
          ∷ called (link_certificate ep.id (trim s.pem))
          ∷ [],
    )
unfolding handle_save save_calls save_new link
handle_save-unlinked server r s ep message creates h is_manual has_pem created not_linked =
    rw
      (
        (form_error-eq-none_iff s).1 h,
        handle_save,
        creates,
        save_calls,
        save_new,
        created,
        link,
        is_manual,
        text_eq_refl,
        is_empty_of (trim s.pem) has_pem,
        not_linked,
      )
      refl

-- A new endpoint whose certificate is refused has been created all the same, and the form stays
-- open: the same button creates another one.
pub handle_save_again :
    (server : Server) (r : Route) (s : EndpointForm) (ep : Endpoint) (message : Text)
    → truthy r.id ≡ none
    → IsSavable s
    → s.type ≡ manual
    → trim s.pem ≢ []
    → server.create (create_request s) ≡ answered ep
    → server.link ep.id (trim s.pem) ≡ refused message
    → let calls =
        called (create_endpoint (create_request s))
        ∷ called (link_certificate ep.id (trim s.pem))
        ∷ [] in
      ((handle_save server r s).1 ≡ calls)
      × ((handle_save server r (handle_save server r s).0).1 ≡ calls)
unfolding create_request
handle_save_again server r s ep message creates h is_manual has_pem created not_linked =
    let once =
      handle_save-unlinked server r s ep message creates h is_manual has_pem created not_linked in
    let twice =
      handle_save-unlinked server r (record s { error = some message; saving = false }) ep message
        creates h is_manual has_pem created not_linked in
    (ap (λ q. q.1) once, ap (λ q. (handle_save server r q.0).1) once ∙ ap (λ q. q.1) twice)
