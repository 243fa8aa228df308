-- ===== src/Alerts/Dispatch/Counters.antt =====
-- Each channel of an alert on its own: `dispatch_alerts` of server/app/jobs/alerts.py.
use crashlens.Base.{
  ℕ, ◌+◌, ◌≡◌, ◌⊎◌, inl, inr, refl, ap, ◌∙◌, sym, String, Bool, true, false, ◌&&◌, none, some, List,
  [], ◌∷◌, ◌++◌, any, map, length, length-map, append_assoc, append-nil, ◌==◌, nat_eq, string_eq,
  arith, Bool-cases,
}
use crashlens.Json.{get_or_null, truthy}
use crashlens.Accounts.Users.{Instance}
use crashlens.Workspace.{Channel, Workspace}
use crashlens.Alerts.Dispatch.{
  Settings, Alert, Request, Reply, fine, retryable, fatal, on_reply, Network, Outcome, delivered,
  failed, skipped, post_json, send_email, Delivery, skip, broken, by_mail, by_post, deliver,
  Message, delivery_of, load_channels, load_member_emails, needs_roster, Counts, count_up,
  deliver_all, message_of, smtp_is_configured, dispatch_alerts,
}

-- The requests of one channel: none, its mail, or its POST once or twice.
abbrev pub Attempt : Delivery → List Request → Type 0
Attempt skip own = own ≡ []
Attempt broken own = own ≡ []
Attempt (by_mail r) own = own ≡ r ∷ []
Attempt (by_post r) own = (own ≡ r ∷ []) ⊎ (own ≡ r ∷ r ∷ [])

-- The requests of the channels, in their order.
abbrev pub Attempts : List Delivery → List Request → Type 0
Attempts [] sent = sent ≡ []
Attempts (d ∷ deliveries) sent =
    (own : List Request) × ((rest : List Request) × ((sent ≡ own ++ rest)
        × (Attempt d own × Attempts deliveries rest)))

-- One channel adds its own requests to those sent before.
abbrev Adds : Delivery → List Request → Outcome × List Request → Type 0
Adds d sent r = (own : List Request) × (r.1 ≡ sent ++ own) × Attempt d own

posted_once :
    (net : Network) (r : Request) (sent : List Request) (p : Reply)
    → (on_reply p (failed, sent ++ r ∷ []) (sent ++ r ∷ [])).1 ≡ sent ++ r ∷ []
posted_once net r sent fine = refl
posted_once net r sent retryable = refl
posted_once net r sent fatal = refl

deliver-Adds :
    (net : Network) (d : Delivery) (sent : List Request) → Adds d sent (deliver net d sent)
unfolding post_json send_email
deliver-Adds net skip sent = ([], sym (append-nil sent), refl)
deliver-Adds net broken sent = ([], sym (append-nil sent), refl)
deliver-Adds net (by_mail r) sent = (r ∷ [], posted_once net r sent (net sent r), refl)
deliver-Adds net (by_post r) sent = go (net sent r)
  where
    go :
        (p : Reply)
        → Adds (by_post r) sent (on_reply p (post_json net 1 r (sent ++ r ∷ [])) (sent ++ r ∷ []))
    go fine = (r ∷ [], refl, inl refl)
    go fatal = (r ∷ [], refl, inl refl)
    go retryable = (
      r ∷ r ∷ [],
      posted_once net r (sent ++ r ∷ []) (net (sent ++ r ∷ []) r)
          ∙ append_assoc sent (r ∷ []) (r ∷ []),
      inr refl,
    )

total : Counts → ℕ
total n = n.delivered + n.failed + n.skipped

count_up-total : (o : Outcome) (n : Counts) → total (count_up o n) ≡ total n + 1
unfolding total
count_up-total delivered n = omega arith
count_up-total failed n = omega arith
count_up-total skipped n = omega arith

deliver_all-adds :
    (net : Network) (deliveries : List Delivery) (n : Counts) (sent : List Request)
    → (total (deliver_all net deliveries n sent).0 ≡ total n + length deliveries)
      × ((own : List Request) × ((deliver_all net deliveries n sent).1 ≡ sent ++ own)
          × Attempts deliveries own)
unfolding deliver_all
deliver_all-adds net [] n sent = (omega arith, ([], sym (append-nil sent), refl))
deliver_all-adds net (d ∷ deliveries) n sent =
    let (own, first, attempt) = deliver-Adds net d sent in
    let r = deliver net d sent in
    let (sum, (rest, later, attempts)) = deliver_all-adds net deliveries (count_up r.0 n) r.1 in
    (
      omega (arith, sum, count_up-total r.0 n),
      (
        own ++ rest,
        later ∙ ap (λ l. l ++ rest) first ∙ append_assoc sent own rest,
        (own, (rest, (refl, (attempt, attempts)))),
      ),
    )

-- What the channel gets when it is the only one, with the roster read.
abbrev pub alone : Settings → (ℕ → String) → Alert → Instance → Workspace → Channel → Delivery
alone settings text a s w =
    delivery_of (smtp_is_configured settings) (message_of settings text a w)
      (some (load_member_emails a.org_id s))

same_delivery :
    (b : Bool) (m : Message) (members : List String) (ch : Channel)
    → needs_roster ch && b ≡ false
    → delivery_of b m none ch ≡ delivery_of b m (some members) ch
unfolding delivery_of
same_delivery b m members ch h = elim (Bool-cases (ch.kind == "email")) [
  | inl email ↦ elim (Bool-cases b) [
    | inl configured ↦
        let given : truthy (get_or_null "to" ch.config) ≡ true = ground arith in
        rw (email, given) refl
    | inr unset ↦ rw (email, unset) refl
  ]
  | inr other ↦ rw other refl
]

same_deliveries :
    (b : Bool) (m : Message) (members : List String) (channels : List Channel)
    → b && any needs_roster channels ≡ false
    → map (delivery_of b m none) channels ≡ map (delivery_of b m (some members)) channels
same_deliveries b m members [] h = refl
same_deliveries b m members (ch ∷ channels) h =
    let first = same_delivery b m members ch (ground arith) in
    let rest = same_deliveries b m members channels (ground arith) in rw (first, rest) refl

-- The job treats each enabled channel for the project as if it were the only one: which others there are
-- decides whether the list of the members is read, and never what a channel is sent.
pub dispatch_alerts_lem :
    (settings : Settings) (net : Network) (text : ℕ → String) (a : Alert) (s : Instance)
    (w : Workspace)
    → dispatch_alerts settings net text a s w
      ≡ deliver_all net
          (map (alone settings text a s w) (load_channels a w))
          (record { delivered = 0; failed = 0; skipped = 0 })
          []
unfolding dispatch_alerts
dispatch_alerts_lem settings net text a s w =
    elim (Bool-cases (smtp_is_configured settings && any needs_roster (load_channels a w))) [
      | inl needed ↦ rw needed refl
      | inr unneeded ↦
          rw
            (
              unneeded,
              same_deliveries (smtp_is_configured settings) (message_of settings text a w)
                  (load_member_emails a.org_id s) (load_channels a w) unneeded,
            )
            refl
    ]

-- Every enabled channel for the project is counted once, as delivered, failed or skipped, whatever the
-- network answers to it and to the others; and the requests sent are, channel by channel in their order,
-- its mail, or its POST once or twice, or none where it is skipped or its config lacks the URL.
pub dispatch_alerts-counts :
    (settings : Settings) (net : Network) (text : ℕ → String) (a : Alert) (s : Instance)
    (w : Workspace)
    → let r = dispatch_alerts settings net text a s w in
      (r.0.delivered + r.0.failed + r.0.skipped ≡ length (load_channels a w))
      × Attempts (map (alone settings text a s w) (load_channels a w)) r.1
unfolding total
dispatch_alerts-counts settings net text a s w =
    let deliveries = map (alone settings text a s w) (load_channels a w) in
    let zero_counts : Counts = record { delivered = 0; failed = 0; skipped = 0 } in
    let (sum, (own, same, attempts)) = deliver_all-adds net deliveries zero_counts [] in
    rw (dispatch_alerts_lem settings net text a s w) (
      omega (arith, sum, length-map (alone settings text a s w) (load_channels a w)),
      rw same attempts,
    )
