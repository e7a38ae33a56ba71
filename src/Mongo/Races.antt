-- ===== src/Mongo/Races.antt =====
-- internal/store/mongo.go under requests that run at once: between a read and the write that
-- follows it, other requests may write.
use visto_easy.Prelude.{
  true, false, not, ◌≡◌, refl, inl, inr, String, some, on_some, ◌==◌, ==_refl, ◌||◌, ◌&&◌,
  if◌then◌else◌, arith, Bool-cases, Option-cases, ltb, trim_space, to_lower,
}
use visto_easy.Prelude.Clock.{Time, Env, after}
use visto_easy.Prelude.Dict.{Dict, lookup, insert, lookup-insert_self}
use visto_easy.Model.{PasswordResetToken}
use visto_easy.Store.State.{not_found, forbidden_state}
use visto_easy.Store.Sessions.{is_used, use_token}
use visto_easy.Mongo.Driver.{MongoStore, WebhookEvent, Counts, done, refused, answer}
use visto_easy.Mongo.Tables.{Tables, Serves, first}
use visto_easy.Mongo.Sessions.{use_read_token}
use visto_easy.Mongo.Payments.{mark_webhook_event_processed}
use visto_easy.Mongo.Refinement.Keyed.{Keyed}
use visto_easy.Mongo.Refinement.Keys.{update_and_lem}
use visto_easy.Mongo.Refinement.Sessions.{use-ne}
use visto_easy.Mongo.Refinement.Creation.{first-append}

module _ {S : Type 0} (view : S → Tables) (db : MongoStore S) (h : Serves view db) where
  abbrev AreTokens : S → Dict PasswordResetToken → Type 0
  AreTokens s d = Keyed (λ (t : PasswordResetToken). t.token) (view s).password_reset_tokens d

  -- The update of a consumption: how many tokens it changes, and what it leaves.
  use_update :
      (now : Time) (tok : String) (s : S) {d : Dict PasswordResetToken}
      → AreTokens s d
      → let also = λ (t : PasswordResetToken). ltb now t.expires_at && not (is_used t) in
        let o =
          db.password_reset_tokens.update_one (λ q. q.token == tok && also q) (use_token now) s in
        (n : Counts) × (o.1 ≡ answer n)
        × (n.modified ≡ on_some (lookup tok d) 0 λ v. if also v then 1 else 0)
        × AreTokens o.0
            (on_some (lookup tok d) d λ v. if also v then insert tok (use_token now v) d else d)
  use_update now tok s k =
      let key = λ (t : PasswordResetToken). t.token in
      update_and_lem h.password_reset_tokens key s k (λ u d'. Keyed key u.password_reset_tokens d')
        (λ u l d' p j. rw p j) k (use_token now) (λ _. refl) (λ _. refl) tok _ (use-ne now)

  use_won :
      (now : Time) (tok : String) (t u : PasswordResetToken) (s : S) (d : Dict PasswordResetToken)
      → AreTokens s d
      → (use_read_token db now tok t s).1 ≡ done u
      → (v : PasswordResetToken) × AreTokens
          (use_read_token db now tok t s).0
          (insert tok (use_token now v) d)
  unfolding use_read_token
  use_won now tok t u s d k won =
      let also = λ (t : PasswordResetToken). ltb now t.expires_at && not (is_used t) in
      let (n, answered, count, k') = use_update now tok s k in
      elim (Bool-cases (is_used t || after now t.expires_at)) [
        | inl dead ↦ absurd (cc (rw dead at won))
        | inr live ↦ elim (Option-cases (lookup tok d)) [
          | inl absent ↦ absurd (cc (rw (live, answered, count, absent) at won))
          | inr (v, at) ↦ elim (Bool-cases (also v)) [
            | inl hit ↦ (v, rw (live, answered, count, at, hit) (rw (at, hit) at k'))
            | inr miss ↦ absurd (cc (rw (live, answered, count, at, miss) at won))
          ]
        ]
      ]

  use_lost :
      (now : Time) (tok : String) (t v : PasswordResetToken) (s : S) (d : Dict PasswordResetToken)
      → AreTokens s d
      → lookup tok d ≡ some v
      → is_used v ≡ true
      → (use_read_token db now tok t s).1 ≡ refused not_found
  unfolding use_read_token
  use_lost now tok t v s d k at used =
      let (n, answered, count, _) = use_update now tok s k in
      let miss : (ltb now v.expires_at && not (is_used v)) ≡ false = ground arith in
      elim (Bool-cases (is_used t || after now t.expires_at)) [
        | inl dead ↦ rw dead refl
        | inr live ↦ rw (live, answered, count, at, miss) refl
      ]

  -- One of two requests gets a token. Where every token stands once in the database, when one
  -- request has gone through with a token it had read, at one time, a second request that has read
  -- the same text before that, whatever record it read and at whatever time it goes on, is refused
  -- as not found.
  pub use_read_token-use_read_token :
      (now later : Time) (tok : String) (t u again : PasswordResetToken) (s : S)
      (d : Dict PasswordResetToken)
      → AreTokens s d
      → (use_read_token db now tok t s).1 ≡ done u
      → (use_read_token db later tok again (use_read_token db now tok t s).0).1 ≡ refused not_found
  use_read_token-use_read_token now later tok t u again s d k won =
      let (v, k') = use_won now tok t u s d k won in
      use_lost later tok again (use_token now v) _ _ k' (lookup-insert_self tok (use_token now v) d)
        refl

  -- A webhook event takes effect once in the database too. MarkWebhookEventProcessed refuses a
  -- blank provider or event as a forbidden state and writes nothing. Otherwise it says whether
  -- the event had been seen, and a second call with the same provider, up to spaces and case, and
  -- the same event, up to spaces, at any time and for any payment, says that it has been seen, and
  -- leaves the tables as they are.
  pub mark_webhook_event_processed_lem :
      (e f : Env) (provider event payment provider' event' payment' : String) (s : S)
      → to_lower (trim_space provider') ≡ to_lower (trim_space provider)
      → trim_space event' ≡ trim_space event
      → let o = mark_webhook_event_processed db e provider event payment s in
        let again = mark_webhook_event_processed db f provider' event' payment' o.0 in
        let blank = to_lower (trim_space provider) == "" || trim_space event == "" in
        let seen =
          first
            (λ (w : WebhookEvent).
              w.provider == to_lower (trim_space provider) && w.event_id == trim_space event)
            (view s).webhooks in
        (blank ≡ true → (o.1 ≡ refused forbidden_state) × (o.0 ≡ s))
        × (blank ≡ false
            → (o.1 ≡ done (on_some seen false λ _. true))
              × (again.1 ≡ done true)
              × (view again.0 ≡ view o.0))
  unfolding mark_webhook_event_processed
  mark_webhook_event_processed_lem e f provider event payment provider' event' payment' s p q =
      let prov = to_lower (trim_space provider) in
      let evt = trim_space event in
      let same = λ (w : WebhookEvent). w.provider == prov && w.event_id == evt in
      let one : WebhookEvent = record {
        id = e.uuid 0;
        provider = prov;
        event_id = evt;
        payment_id = trim_space payment;
        creato_il = e.now 0;
      } in
      let two : WebhookEvent = record {
        id = f.uuid 0;
        provider = prov;
        event_id = evt;
        payment_id = trim_space payment';
        creato_il = f.now 0;
      } in
      rw (p, q)
        (
          (λ blank. rw blank (refl, refl)),
          λ named. elim (Option-cases (first same (view s).webhooks)) [
            | inl new ↦
                let (answered, after') = h.webhooks.insert_one_fresh one s new in
                let there : first same (view (db.webhooks.insert_one one s).0).webhooks ≡ some one =
                  rw after' (
                    first-append same one (view s).webhooks new
                      (rw (==_refl prov, ==_refl evt) refl)) in
                let (twice, kept) =
                  h.webhooks.insert_one_twice two (db.webhooks.insert_one one s).0 one there in
                rw (named, answered, new) (refl, rw twice refl, rw twice kept)
            | inr (w, old) ↦
                let (answered, kept) = h.webhooks.insert_one_twice one s w old in
                let there : first same (view (db.webhooks.insert_one one s).0).webhooks ≡ some w =
                  rw kept old in
                let (twice, kept') =
                  h.webhooks.insert_one_twice two (db.webhooks.insert_one one s).0 w there in
                rw (named, answered, old) (refl, rw twice refl, rw twice kept')
          ],
        )
