-- ===== src/Custom/Calls/Asked.antt =====
-- What a request to a runner leaves in the metadata and in the trace.
use forkspacer.Base.{
  ℕ, String, Bool, true, false, ◌≡◌, ◌≢◌, ◌⊎◌, inl, inr, refl, sym, ◌∙◌, false≢true, [], ◌∷◌, Assoc,
  insert, eq_iff, ◌==◌, if◌then◌else◌,
}
use forkspacer.Go.{Result, ok, err, is_ok}
use forkspacer.Exec.{Exec, ◌>>=◌, and_then, lift, pure}
use forkspacer.Custom.{
  posted, CustomRun, Response, Host, runner_service_name, inner_meta_data, decode_to_string,
}
use forkspacer.Custom.Calls.{
  encode_meta_data, read_response, call_runner_endpoint, save_response, ask, missing,
}

module _ {W M C G : Type 0} (host : Host W M C G) where
  abbrev service_of : CustomRun W M → String
  service_of s = decode_to_string host runner_service_name s.meta_data

  -- There is a service, and one request was sent to it. The metadata stays as it is, or the request
  -- succeeds and a value becomes the inner metadata.
  abbrev Sent : String → CustomRun W M → Result (Unit {0}) × CustomRun W M → Type 0
  Sent endpoint s (r, t) =
      (service_of s ≢ "")
      × (t.trace ≡ posted (service_of s) endpoint ∷ s.trace)
      × ((t.meta_data ≡ s.meta_data)
          ⊎ ((is_ok r ≡ true)
              × (value : M) × (t.meta_data ≡ insert inner_meta_data value s.meta_data)))

  -- Without the name of a service the request fails, and nothing changes.
  abbrev Unsent : CustomRun W M → Result (Unit {0}) × CustomRun W M → Type 0
  Unsent s (r, t) = (service_of s ≡ "") × (is_ok r ≡ false) × (t ≡ s)

  pub Asked : String → CustomRun W M → Result (Unit {0}) × CustomRun W M → Type 0
  Asked endpoint s x = Unsent s x ⊎ Sent endpoint s x

  module _ (endpoint : String) (success : ℕ) (s : CustomRun W M) where
    abbrev requested : W → CustomRun W M
    requested w = record s { world = w; trace = posted (service_of s) endpoint ∷ s.trace }

    saved :
        (response : Result (Assoc M)) (w : W)
        → service_of s ≢ ""
        → Sent endpoint s
            (and_then {A = Assoc M} {B = Unit {0}} (save_response host) response (requested w))
    saved (err e) w h = (h, refl, inl refl)
    saved (ok []) w h = (h, refl, inl refl)
    saved (ok (x ∷ xs)) w h = (h, refl, inr (refl, host.map_value (x ∷ xs), refl))

    abbrev read : Response → Exec (CustomRun W M) (Assoc M)
    read x = lift (read_response host endpoint success x)

    received :
        (x : Result Response) (w : W)
        → service_of s ≢ ""
        → Sent endpoint s (
            and_then {A = Assoc M} {B = Unit {0}}
              (save_response host)
              (and_then {A = Response} {B = Assoc M} read x (requested w)).0
              (and_then {A = Response} {B = Assoc M} read x (requested w)).1)
    received (err e) w h = (h, refl, inl refl)
    received (ok x) w h = saved (read_response host endpoint success x) w h

    abbrev request : String → Exec (CustomRun W M) (Unit {0})
    request service = call_runner_endpoint host service endpoint success >>= save_response host

    named :
        (b : Bool)
        → (service_of s == "") ≡ b
        → Asked endpoint s
            (((if b then missing host "service" else pure (service_of s)) >>= request) s)
    unfolding call_runner_endpoint Asked
    named true e = inl ((eq_iff (service_of s) "").0 e, refl, refl)
    named false e =
        let body = encode_meta_data host s.meta_data in
        inr (
          received (host.post (service_of s) endpoint body s.world).0
            (host.post (service_of s) endpoint body s.world).1
            (λ empty. false≢true (sym e ∙ (eq_iff (service_of s) "").1 empty)))

    -- A request to a runner (Install, Sleep and Resume are one each). Without the name of a service
    -- in the metadata it fails and nothing changes. Otherwise exactly one request is sent, to that
    -- service at the endpoint; the metadata stays as it is, or the request succeeds and one value
    -- is stored in it, as the inner metadata.
    pub ask-Asked : Asked endpoint s (ask host endpoint success s)
    unfolding ask
    ask-Asked = named (service_of s == "") refl
