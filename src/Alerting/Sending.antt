-- ===== src/Alerting/Sending.antt =====
-- SendReport and SendNotification stop at the first error; what a single send does to the network.
use Prim.Native.String.{◌++◌}
use mathlib.Core.List.{◌++◌ as ◌⧺◌}
use torvix.Prelude.{
  if◌then◌else◌, Bool-cases, Option-cases, ◌<◌, String, ◌≡◌, refl, sym, ap, subst, ◌≢◌, ◌↔◌, ◌⊎◌,
  inl, inr, true, false, Option, none, some, List, [], ◌∷◌, arith, ◌==◌, eq_iff,
}
use torvix.Prelude.Float64.{Float64}
use torvix.Config.{Webhook}
use torvix.Domain.{Report}
use torvix.Alerting.Payload.{Json, Notification}
use torvix.Alerting.Delivery.{
  Transport, Action, Outcome, bad_request, failed, response, post_json, post_error, send_email,
  mail_error, mail_to, no_recipient, send_all, send_report, send_notification, send_one, notify_one,
}

module _ {W : Type 0} (send : Webhook → Action W) where
  -- Every enabled target was sent to, in order and without an error, from the first world to the last.
  abbrev pub AllSent : List Webhook → W → W → Type 0
  AllSent [] w w' = w ≡ w'
  AllSent (t ∷ rest) w w' =
      ((t.enabled ≡ false) × AllSent rest w w')
      ⊎ ((t.enabled ≡ true) × ((send t w).0 ≡ none) × AllSent rest (send t w).1 w')

  -- The targets before a failing one were all sent to, the failing one is enabled and returned the
  -- error, and nothing was sent after it.
  pub record FailedAt (ws : List Webhook) (w : W) (err : String) (w' : W) : Type 0 where
    pub done : List Webhook
    pub target : Webhook
    pub left : List Webhook
    pub between : W
    pub split : ws ≡ done ⧺ (target ∷ left)
    pub sent : AllSent done w between
    pub enabled : target.enabled ≡ true
    pub failing : send target between ≡ (some err, w')

  later :
      {t : Webhook} {rest : List Webhook} {w w₁ w' : W} {err : String}
      → ((between : W) (done : List Webhook)
          → AllSent done w₁ between
          → AllSent (t ∷ done) w between)
      → FailedAt rest w₁ err w'
      → FailedAt (t ∷ rest) w err w'
  later {t = t} extend f = record {
    done = t ∷ f.done;
    target = f.target;
    left = f.left;
    between = f.between;
    split = ap (λ xs. t ∷ xs) f.split;
    sent = extend f.between f.done f.sent;
    enabled = f.enabled;
    failing = f.failing;
  }

  -- How a loop over the targets ends, by the error that it returns.
  abbrev pub Ends : List Webhook → W → Option String × W → Type 0
  Ends ws w (none, w') = AllSent ws w w'
  Ends ws w (some err, w') = FailedAt ws w err w'

  module _ (t : Webhook) (rest : List Webhook) (w : W) where
    from_disabled :
        t.enabled ≡ false → (r : Option String × W) → Ends rest w r → Ends (t ∷ rest) w r
    from_disabled off (none, w') e = inl (off, e)
    from_disabled off (some err, w') e = later (λ between done s. inl (off, s)) e

    from_sent :
        t.enabled ≡ true
        → (send t w).0 ≡ none
        → (r : Option String × W) → Ends rest (send t w).1 r
        → Ends (t ∷ rest) w r
    from_sent on fine (none, w') e = inr (on, fine, e)
    from_sent on fine (some err, w') e = later (λ between done s. inr (on, fine, s)) e

    send_all_disabled : t.enabled ≡ false → send_all send (t ∷ rest) w ≡ send_all send rest w
    unfolding send_all
    send_all_disabled off = ground arith

    send_all_sent :
        t.enabled ≡ true
        → (send t w).0 ≡ none
        → send_all send (t ∷ rest) w ≡ send_all send rest (send t w).1
    unfolding send_all
    send_all_sent on fine = ground arith

    send_all_failed :
        t.enabled ≡ true
        → (err : String) → (send t w).0 ≡ some err
        → send_all send (t ∷ rest) w ≡ (some err, (send t w).1)
    unfolding send_all
    send_all_failed on err bad = ground arith

    failed_here :
        t.enabled ≡ true
        → (err : String) → (send t w).0 ≡ some err
        → FailedAt (t ∷ rest) w err (send t w).1
    failed_here on err bad = record {
      done = [];
      target = t;
      left = rest;
      between = w;
      split = refl;
      sent = refl;
      enabled = on;
      failing = λ i. (bad i, (send t w).1);
    }

  -- Every run of the loop ends in one of two ways: without an error, and then every enabled target
  -- was sent to in order; or with the error of the first enabled target that failed, after which
  -- nothing was sent.
  pub send_all-Ends : (ws : List Webhook) (w : W) → Ends ws w (send_all send ws w)
  unfolding send_all
  send_all-Ends [] w = refl
  send_all-Ends (t ∷ rest) w = elim (Bool-cases t.enabled) [
    | inl on ↦ elim (Option-cases (send t w).0) [
      | inl fine ↦
          subst (Ends (t ∷ rest) w) (sym (send_all_sent t rest w on fine))
            (from_sent t rest w on fine _ (send_all-Ends rest (send t w).1))
      | inr (err, bad) ↦
          subst (Ends (t ∷ rest) w) (sym (send_all_failed t rest w on err bad))
            (failed_here t rest w on err bad)
    ]
    | inr off ↦
        subst (Ends (t ∷ rest) w) (sym (send_all_disabled t rest w off))
          (from_disabled t rest w off _ (send_all-Ends rest w))
  ]

-- A response whose status is no redirect and no error.
abbrev pub Accepted : Outcome → Type 0
Accepted (bad_request err) = ⊥
Accepted (failed err) = ⊥
Accepted (response code status) = code < 300

module _ {W : Type 0} (net : Transport W) where
  open net use {post, send_mail, path_escape}

  -- SendNotification, whatever the targets, ends in one of these ways.
  pub send_notification-Ends :
      (ws : List Webhook) (n : Notification) (w : W)
      → Ends (λ t. notify_one net t n) ws w (send_notification net ws n w)
  unfolding send_notification
  send_notification-Ends ws n w = send_all-Ends (λ t. notify_one net t n) ws w

  -- SendReport, whatever the targets, ends in one of these ways.
  pub send_report-Ends :
      {F : Type 0} ⦃fl : Float64 F⦄ (ws : List Webhook) (report : Report F) (w : W)
      → Ends (λ t. send_one net t report) ws w (send_report net ws report w)
  unfolding send_report
  send_report-Ends ws report w = send_all-Ends (λ t. send_one net t report) ws w

  post_error-none : (target : Webhook) (o : Outcome) → (post_error target o ≡ none) ↔ Accepted o
  unfolding post_error
  post_error-none target (bad_request e) = ((λ h. cc), (λ h. absurd h))
  post_error-none target (failed e) = ((λ h. cc), (λ h. absurd h))
  post_error-none target (response code status) = ground arith

  -- A post succeeds exactly when there is an endpoint and the response's status is below 300; with
  -- no endpoint the network is not touched, and else there is one post.
  pub post_json_success :
      (target : Webhook) (endpoint : String) (payload : Json) (w : W)
      → (((post_json net target endpoint payload w).0 ≡ none)
          ↔ ((endpoint ≢ "") × Accepted (post endpoint payload w).0))
        × ((post_json net target endpoint payload w).1
            ≡ (if endpoint == "" then w else (post endpoint payload w).1))
  unfolding post_json
  post_json_success target endpoint payload w = elim (Bool-cases (endpoint == "")) [
    | inl e ↦ rw e (((λ h. cc), (λ h. absurd (h.0 ((eq_iff endpoint "").0 e)))), refl)
    | inr e ↦
        let o = post_error-none target (post endpoint payload w).0 in
        rw e (((λ h. ((λ q. ground (arith, eq_iff endpoint "")), o.0 h)), (λ h. o.1 h.1)), refl)
  ]

  -- A mail is handed to the SMTP sender exactly when host, sender and recipients are configured;
  -- else the result is an error and the world is unchanged.
  pub send_email_cases :
      (target : Webhook) (message : String) (w : W)
      → ((target.smtp_host ≢ "")
          × (target.sender ≢ "")
          × (no_recipient target.recipients ≡ false)
          × (send_email net target message w ≡ (
            mail_error target (send_mail (mail_to target message) w).0,
            (send_mail (mail_to target message) w).1,
          )))
        ⊎ (((target.smtp_host ≡ "")
              ⊎ (target.sender ≡ "")
              ⊎ (no_recipient target.recipients ≡ true))
            × ((err : String) × (send_email net target message w ≡ (some err, w))))
  unfolding send_email
  send_email_cases target message w = elim (Bool-cases (target.smtp_host == "")) [
    | inl a ↦ inr (
      inl ((eq_iff target.smtp_host "").0 a),
      (target.name ++ " email smtp_host is required", rw a refl),
    )
    | inr a ↦ elim (Bool-cases (target.sender == "")) [
      | inl b ↦ inr (
        inr (inl ((eq_iff target.sender "").0 b)),
        (target.name ++ " email from is required", rw (a, b) refl),
      )
      | inr b ↦ elim (Bool-cases (no_recipient target.recipients)) [
        | inl c ↦ inr (inr (inr c), (target.name ++ " email to is required", rw (a, b, c) refl))
        | inr c ↦ inl (
          (λ q. ground (arith, eq_iff target.smtp_host "")),
          (λ q. ground (arith, eq_iff target.sender "")),
          c,
          ground arith,
        )
      ]
    ]
  ]
