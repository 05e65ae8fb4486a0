-- ===== src/Client/Server/Stream.antt =====
-- What CTRLStream does to its server, and what several streams do to each other.
use etcd_cloud_benchmarking.Prelude.{
  ℕ, ◌≡◌, ◌⊎◌, inl, inr, refl, sym, ap, ◌∙◌, Bool, true, false, Option, none, some, List, [], ◌∷◌,
  String, if◌then◌else◌,
}
use etcd_cloud_benchmarking.Prelude.Run.{Run, ret, panics, ◌>>=◌}
use etcd_cloud_benchmarking.Prelude.Text.{Text}
use etcd_cloud_benchmarking.Control.Config.{BenchctlConfig}
use etcd_cloud_benchmarking.Client.Server.{
  Server, Received, eof, shutdown, other, recv_error, config_file, Next, continues, returns,
  send_ctrl_message, open_stream, end_stream, close_term, configured, receive, settle, round, serve,
  ctrl_stream,
}

-- how a stream leaves its server: it waits, is the current one, and the channel is open; or it
-- returned, no stream is current, and the channel is closed only after a return without an error
pub data Served (s : Server) : Next → Server → Type 0 where
  waits :
      {s' : Server}
      → s'.keys ≡ s.keys
      → s'.curr_stream ≡ s.curr_stream
      → s'.term_closed ≡ false
      → Served s continues s'
  ended :
      {e : Option String} {s' : Server}
      → s'.keys ≡ s.keys
      → s'.curr_stream ≡ none
      → (s'.term_closed ≡ false) ⊎ (e ≡ none)
      → Served s (returns e) s'

module _ (unmarshal : Text → Option BenchctlConfig → Option BenchctlConfig × Option String) where
  abbrev Outcome : Server → Run (Next × Server) → Type 0
  Outcome s m = (n : Next) × (s' : Server) × (m ≡ ret (n, s')) × Served s n s'

  pub round_open :
      (r : Received) (sent : Option String) (s : Server)
      → s.term_closed ≡ false
      → round unmarshal r sent s ≡ receive unmarshal r sent s >>= (λ x. ret (settle unmarshal x))
  unfolding round
  round_open r sent s h =
      ap
        (λ (b : Bool).
          if b
          then ret (settle unmarshal (returns none, s))
          else (receive unmarshal r sent s >>= (λ x. ret (settle unmarshal x))))
        h

  round_closed :
      (r : Received) (sent : Option String) (s : Server)
      → s.term_closed ≡ true
      → round unmarshal r sent s ≡ ret (returns none, end_stream s)
  unfolding round settle
  round_closed r sent s h =
      ap
        (λ (b : Bool).
          if b
          then ret (settle unmarshal (returns none, s))
          else (receive unmarshal r sent s >>= (λ x. ret (settle unmarshal x))))
        h

  pub close_open :
      (s : Server)
      → s.term_closed ≡ false
      → close_term s ≡ ret (continues, record s { term_closed = true })
  unfolding close_term
  close_open s h =
      ap (λ (b : Bool). if b then panics else ret (continues, record s { term_closed = true })) h

  pub serve_closed :
      (rs : List (Received × Option String)) (s : Server)
      → s.term_closed ≡ true
      → serve unmarshal rs s ≡ ret (returns none, end_stream s)
  unfolding serve
  serve_closed [] s h =
      ap (λ (b : Bool). if b then ret (returns none, end_stream s) else ret (continues, s)) h
  serve_closed ((r, sent) ∷ rs) s h = rw (round_closed r sent s h) refl

  -- a server that differs from another in its configuration only
  abbrev Same : Server → Server → Type 0
  Same s s' =
      (s'.keys ≡ s.keys) × (s'.curr_stream ≡ s.curr_stream) × (s'.term_closed ≡ s.term_closed)

  configured-Same :
      (sent : Option String) (u : Option BenchctlConfig × Option String) (s : Server)
      → Same s (configured unmarshal sent u s).1
  unfolding configured
  configured-Same sent (c, some e) s = (refl, refl, refl)
  configured-Same sent (c, none) s = (refl, refl, refl)

  moved : {s s₁ s' : Server} {n : Next} → Same s s₁ → Served s₁ n s' → Served s n s'
  moved (k, c, t) (waits k' c' o) = waits (k' ∙ k) (c' ∙ c) o
  moved (k, c, t) (ended k' c' o) = ended (k' ∙ k) c' o

  -- what follows a result that leaves the channel open
  next_round :
      (rs : List (Received × Option String)) (s : Server) (x : Next × Server)
      → ((s₁ : Server) → s₁.term_closed ≡ false → Outcome s₁ (serve unmarshal rs s₁))
      → s.term_closed ≡ false
      → Same s x.1
      → Outcome s (elim (settle unmarshal x).0 [
        | continues ↦ serve unmarshal rs (settle unmarshal x).1
        | returns e ↦ ret (returns e, (settle unmarshal x).1)
      ])
  unfolding settle end_stream
  next_round rs s (continues, s₁) ih h v =
      let (n, s', e, w) = ih s₁ (v.2 ∙ h) in (n, s', e, moved v w)
  next_round rs s (returns e, s₁) ih h (k, c, t) =
      (returns e, end_stream s₁, refl, ended k refl (inl (t ∙ h)))

  serve-Served :
      (rs : List (Received × Option String)) (s : Server)
      → s.term_closed ≡ false
      → Outcome s (serve unmarshal rs s)
  unfolding serve receive settle end_stream
  serve-Served [] s h = (
    continues,
    s,
    ap (λ (b : Bool). if b then ret (returns none, end_stream s) else ret (continues, s)) h,
    waits refl refl h,
  )
  serve-Served ((eof, sent) ∷ rs) s h =
      rw (round_open eof sent s h)
        (next_round rs s (returns none, s) (serve-Served rs) h (refl, refl, refl))
  serve-Served ((shutdown, sent) ∷ rs) s h =
      let s₁ : Server = record s { term_closed = true } in
      rw (round_open shutdown sent s h, close_open s h)
        (returns none, end_stream s₁, serve_closed rs s₁ refl, ended refl refl (inr refl))
  serve-Served ((other, sent) ∷ rs) s h =
      rw (round_open other sent s h)
        (next_round rs s (continues, s) (serve-Served rs) h (refl, refl, refl))
  serve-Served ((recv_error e, sent) ∷ rs) s h =
      rw (round_open (recv_error e) sent s h)
        (next_round rs s (returns (some e), s) (serve-Served rs) h (refl, refl, refl))
  serve-Served ((config_file b, sent) ∷ rs) s h =
      let x = configured unmarshal sent (unmarshal b s.ctl_config) s in
      rw (round_open (config_file b) sent s h)
        (next_round rs s x (serve-Served rs) h (configured-Same sent (unmarshal b s.ctl_config) s))

-- On a server whose termination channel is open, CTRLStream panics for no sequence of messages,
-- whatever their contents and whichever answers cannot be sent. Either it still waits, is the
-- current stream, and the channel is open; or it returned, there is no current stream, and the
-- channel was closed only if it returned no error. The keys do not change.
ctrl_stream-Served :
    (unmarshal : Text → Option BenchctlConfig → Option BenchctlConfig × Option String) (i : ℕ)
    (rs : List (Received × Option String)) (s : Server)
    → s.term_closed ≡ false
    → (n : Next) × (s' : Server) × (ctrl_stream unmarshal i rs s ≡ ret (n, s'))
      × Served (open_stream i s) n s'
unfolding ctrl_stream open_stream
ctrl_stream-Served unmarshal i rs s h = serve-Served unmarshal rs (open_stream i s) h

-- what a stream leaves when it returned
no_stream :
    {s s' : Server} {n : Next} {e : Option String}
    → Served s n s'
    → n ≡ returns e
    → s'.curr_stream ≡ none
no_stream (waits k c o) h = cc
no_stream (ended k c o) h = c

-- When a stream ends, with any messages before its end, the server cannot send any more, although
-- another stream was opened after it and is still there: the message goes to no stream.
ended_stream_silences :
    (unmarshal : Text → Option BenchctlConfig → Option BenchctlConfig × Option String) (i j : ℕ)
    (rs : List (Received × Option String)) (s s' : Server) (e : Option String)
    (send : ℕ → Option String)
    → s.term_closed ≡ false
    → serve unmarshal rs (open_stream j (open_stream i s)) ≡ ret (returns e, s')
    → send_ctrl_message send s' ≡ (none, some "no active stream")
unfolding open_stream send_ctrl_message
ended_stream_silences unmarshal i j rs s s' e send h r =
    let (n, s₁, e₁, v) = serve-Served unmarshal rs (open_stream j (open_stream i s)) h in
    let same : ret (n, s₁) ≡ ret (returns e, s') = sym e₁ ∙ r in
    let stops : n ≡ returns e = cc same in
    let there : s₁ ≡ s' = cc same in
    let gone : s'.curr_stream ≡ none =
      sym (ap (λ (t : Server). t.curr_stream) there) ∙ no_stream v stops in
    rw (gone) refl

-- A stream that gets Shutdown returns without an error, whatever arrives after it; another that was
-- waiting for a message then panics when it gets Shutdown, too.
pub second_shutdown_panics :
    (unmarshal : Text → Option BenchctlConfig → Option BenchctlConfig × Option String)
    (a b : Option String) (rs : List (Received × Option String)) (s : Server)
    → s.term_closed ≡ false
    → (s' : Server) × (serve unmarshal ((shutdown, a) ∷ rs) s ≡ ret (returns none, s'))
      × (receive unmarshal shutdown b s' ≡ panics)
unfolding serve receive close_term end_stream settle
second_shutdown_panics unmarshal a b rs s h =
    let s₁ : Server = record s { term_closed = true } in
    (
      end_stream s₁,
      rw (round_open unmarshal shutdown a s h, close_open unmarshal s h)
          (serve_closed unmarshal rs s₁ refl),
      refl,
    )
