-- ===== src/Server/Replies.antt =====
-- internal/server/server.go: what clients are answered, by the store's view of the keys.
use text.Mathlib.TextPositions.{eq_refl}
use kvp.Prelude.{
  ℕ, ◌+◌, ◌≤◌, String, ◌≡◌, ◌≢◌, refl, ap, sym, ◌∙◌, Bool, true, false, not, ◌&&◌, ◌||◌, ◌==◌,
  Option, none, some, arith, inl, inr, Bool-cases, Option-cases,
}
use kvp.Assoc.{Assoc}
use kvp.Store.Clock.{TimeText}
use kvp.Store.Mode.{PutMode, put_sync, put_async, put_memory}
use kvp.Store.Sql.{Bytes}
use kvp.Store.State.{Error, Store, caching}
use kvp.Store.Write.{put_with_mode, effective_mode, is_sync}
use kvp.Store.Read.{GetResult, get}
use kvp.Store.View.{view, Reply, absent, expired, found, reply, reply_of}
use kvp.Store.View.Writes.{view-put_with_mode, view-put_failed}
use kvp.Store.View.Reads.{get-eq-view}
use kvp.Server.Http.{
  Request, Response, octets, Server, BodyRead, too_large, broken, complete, read_body,
}
use kvp.Server.Handlers.{
  write_error, internal_error, success, answer_get, answer_put, finish_put, serve_get, serve_post,
  post_body, post_read,
}

complete_inj : {a b : Bytes} → complete a ≡ complete b → a ≡ b
complete_inj h = cc h

true_≢_false : true ≢ false
true_≢_false h = cc h

-- The answer to a read, by what the client can see of the key.
abbrev pub answer_to : Assoc String → Reply → Response
answer_to h absent = write_error 404 "key not found" h
answer_to h expired = write_error 404 "key expired" h
answer_to h (found bytes) = success 200 "application/octet-stream" (octets bytes) h

answer_get-reply_of :
    (res : GetResult) (h : Assoc String) → answer_get none res h ≡ answer_to h (reply_of res)
unfolding reply_of
answer_get-reply_of res h = elim (Bool-cases res.found) [
  | inr missing ↦ rw missing
  | inl there ↦ elim (Bool-cases res.expired) [
    | inl old ↦ rw (there, old)
    | inr live ↦ rw (there, live)
  ]
]

-- A write was answered as stored (201) or accepted (202).
abbrev pub is_stored : Response → Bool
is_stored w = w.status == 201 || w.status == 202

module _ ⦃c : TimeText⦄ where
  -- The answer to a GET is an internal error where the store fails; otherwise it is the value of the
  -- key up to its expiry, and 404 with the reason where the key is absent or expired.
  pub serve_get_lem :
      (key : String) (now : ℕ) (h : Assoc String) (s : Server)
      → (serve_get key now h s).0 ≡ elim (get key now s.store).1 [
        | some e ↦ internal_error h
        | none ↦ answer_to h (reply now (view s.store key))
      ]
  unfolding serve_get
  serve_get_lem key now h s = elim (Option-cases (get key now s.store).1) [
    | inl ok ↦ rw ok (
        answer_get-reply_of (get key now s.store).0 h
        ∙ ap (answer_to h) (get-eq-view key now s.store ok))
    | inr failed ↦ rw failed.1
  ]

  -- A POST that is answered as stored has read a body and handed it to the store, which took it.
  pub record Stored (key : String) (now : ℕ) (s : Server) (b : BodyRead) (s' : Server)
      : Type 0 where
    pub bytes : Bytes
    pub used : PutMode
    pub was_read : b ≡ complete bytes
    pub taken : (put_with_mode key bytes s.ttl used now s.store).0 ≡ none
    pub kept : s'.store ≡ (put_with_mode key bytes s.ttl used now s.store).1

  finish_put-is_stored :
      (mode : PutMode) (down : Bool) (h : Assoc String) (s : Server) (r : Option Error × Store)
      → is_stored (finish_put mode down h s r).0 ≡ true
      → (r.0 ≡ none) × ((finish_put mode down h s r).1.store ≡ r.1)
  unfolding internal_error write_error
  finish_put-is_stored mode down h s (none, st) stored = (refl, refl)
  finish_put-is_stored mode down h s (some e, st) stored = cc stored

  post_body-Stored :
      (key : String) (now : ℕ) (bytes : Bytes) (o : Option PutMode) (h : Assoc String) (s : Server)
      → is_stored (post_body key now bytes o h s).0 ≡ true
      → Stored key now s (complete bytes) (post_body key now bytes o h s).1
  unfolding write_error
  post_body-Stored key now bytes none h s stored = absurd (true_≢_false (sym stored))
  post_body-Stored key now bytes (some mode) h s stored =
      let used = effective_mode s.store mode in
      let done =
        finish_put-is_stored used _ h s (put_with_mode key bytes s.ttl used now s.store) stored in
      record { bytes = bytes; used = used; was_read = refl; taken = done.0; kept = done.1 }

  post_read-Stored :
      (key : String) (now : ℕ) (r : Request) (b : BodyRead) (h : Assoc String) (s : Server)
      → is_stored (post_read key now r b h s).0 ≡ true
      → Stored key now s b (post_read key now r b h s).1
  unfolding write_error
  post_read-Stored key now r too_large h s stored = absurd (true_≢_false (sym stored))
  post_read-Stored key now r broken h s stored = absurd (true_≢_false (sym stored))
  post_read-Stored key now r (complete bytes) h s stored =
      post_body-Stored key now bytes _ h s stored

  live-reply :
      (now later ttl : ℕ) (bytes : Bytes)
      → later ≤ now + ttl
      → reply later (some (bytes, now + ttl)) ≡ found bytes
  live-reply now later ttl bytes soon = ground arith

  -- After a POST that was answered as stored or accepted, a GET of the key within the lifetime is
  -- answered with the posted bytes, unless the store fails in it.
  pub get_after_post :
      (key : String) (now later : ℕ) (r : Request) (h h' : Assoc String) (bytes : Bytes)
      (s : Server)
      → is_stored (serve_post key now r h s).0 ≡ true
      → read_body s.max_body_bytes r.body ≡ complete bytes
      → later ≤ now + s.ttl
      → (get key later (serve_post key now r h s).1.store).1 ≡ none
      → (serve_get key later h' (serve_post key now r h s).1).0
        ≡ success 200 "application/octet-stream" (octets bytes) h'
  unfolding serve_post
  get_after_post key now later r h h' bytes s stored body soon ok =
      let p = post_read-Stored key now r (read_body s.max_body_bytes r.body) h s stored in
      let same : p.bytes ≡ bytes = complete_inj (sym p.was_read ∙ body) in
      let posted : view (serve_post key now r h s).1.store key ≡ some (bytes, now + s.ttl) = rw (
        p.kept,
        view-put_with_mode key p.bytes s.ttl p.used now s.store p.taken key,
        eq_refl key,
        same,
      ) in
      serve_get_lem key later h' (serve_post key now r h s).1
      ∙ rw (ok, posted, live-reply now later s.ttl bytes soon)

  answer_put-is_stored :
      (mode : PutMode) (down : Bool) (h : Assoc String) → is_stored (answer_put mode down h) ≡ true
  unfolding answer_put
  answer_put-is_stored put_sync down h = refl
  answer_put-is_stored put_async down h = refl
  answer_put-is_stored put_memory down h = refl

  finish_put-failed :
      (mode : PutMode) (down : Bool) (h : Assoc String) (s : Server) (r : Option Error × Store)
      → is_stored (finish_put mode down h s r).0 ≡ false
      → (r.0 ≢ none) × ((finish_put mode down h s r).1.store ≡ r.1)
  finish_put-failed mode down h s (none, st) not_stored =
      absurd (true_≢_false (sym (answer_put-is_stored mode down h) ∙ not_stored))
  finish_put-failed mode down h s (some e, st) not_stored = (λ e. cc e, refl)

  post_body-view :
      (key : String) (now : ℕ) (bytes : Bytes) (o : Option PutMode) (h : Assoc String) (s : Server)
      (j : String)
      → is_stored (post_body key now bytes o h s).0 ≡ false
      → view (post_body key now bytes o h s).1.store j ≡ view s.store j
  post_body-view key now bytes none h s j not_stored = refl
  post_body-view key now bytes (some mode) h s j not_stored =
      let used = effective_mode s.store mode in
      let r = put_with_mode key bytes s.ttl used now s.store in
      let failed =
        finish_put-failed used (not (is_sync mode) && not (caching s.store)) h s r not_stored in
      rw failed.1 (view-put_failed key bytes s.ttl used now s.store j failed.0)

  post_read-view :
      (key : String) (now : ℕ) (r : Request) (b : BodyRead) (h : Assoc String) (s : Server)
      (j : String)
      → is_stored (post_read key now r b h s).0 ≡ false
      → view (post_read key now r b h s).1.store j ≡ view s.store j
  post_read-view key now r too_large h s j not_stored = refl
  post_read-view key now r broken h s j not_stored = refl
  post_read-view key now r (complete bytes) h s j not_stored =
      post_body-view key now bytes _ h s j not_stored

  -- A POST that is answered with anything but 201 or 202 changes nothing that a read goes by.
  pub view-serve_post_failed :
      (key : String) (now : ℕ) (r : Request) (h : Assoc String) (s : Server) (j : String)
      → is_stored (serve_post key now r h s).0 ≡ false
      → view (serve_post key now r h s).1.store j ≡ view s.store j
  unfolding serve_post
  view-serve_post_failed key now r h s j not_stored =
      post_read-view key now r (read_body s.max_body_bytes r.body) h s j not_stored
