-- ===== src/MainLoop/Reachable.antt =====
-- The states that the loop of `main` in src/daemon.c can reach, and what holds in all of them.
use kbloomd.Common.{
  ℕ, zero, suc, ◌≡◌, refl, ap, ◌∙◌, arith, Bool, true, false, not, Option, none, some, List, [],
  ◌∷◌, Result, ok, err, length, length-set, get_elem?, get_or, set, if◌then◌else◌, ◌==◌, eintr,
  bit_and,
}
use kbloomd.Platform.{Platform, PollFd}
use kbloomd.FilterSet.Valid.{IsValid}
use kbloomd.Daemon.{Config, Stats, next_count}
use kbloomd.Client.{client_init, Client}
use kbloomd.MainLoop.{
  Server, round, polled, serve_loop, serve_at, serve_client, accept_ready, accept_loop,
  accept_client, close_timed_out_clients, close_late, sync_server, poll_entries, rest_of,
  find_free_client, pollin, poll_timeout_ms, set_nonblocking,
}
use kbloomd.MainLoop.Sync.{sync_server-IsValid}
use kbloomd.MainLoop.Driven.{serve_client-IsValid}

module _ (P : Platform) where
  open P use {World}

  -- What holds in every state of the loop: a well-formed set of filters, and the slots of the
  -- clients, neither more nor less.
  pub record IsServing (slots : ℕ) (s : Server P) : Type 0 where
    pub valid : IsValid s.state.filters
    pub slots_eq : length s.clients ≡ slots

  serve_at-IsServing :
      (cfg : Config) (i revents slots : ℕ) (o : Option Client) (s : Server P)
      → IsServing slots s
      → IsServing slots (serve_at P cfg i revents o s)
  unfolding serve_at
  serve_at-IsServing cfg i revents slots none s h = h
  serve_at-IsServing cfg i revents slots (some c) s h = record {
    valid = serve_client-IsValid P cfg revents c s.state h.valid;
    slots_eq = length-set s.clients i (serve_client P cfg revents c s.state).0 ∙ h.slots_eq;
  }

  serve_loop-IsServing :
      (cfg : Config) (slots : ℕ) (entries : List (ℕ × PollFd)) (revents : List ℕ) (s : Server P)
      → IsServing slots s
      → IsServing slots (serve_loop P cfg entries revents s)
  unfolding serve_loop
  serve_loop-IsServing cfg slots [] revents s h = h
  serve_loop-IsServing cfg slots ((i, entry) ∷ more) revents s h =
      serve_loop-IsServing cfg slots more (rest_of P revents) _
        (serve_at-IsServing cfg i (get_or revents 0 0) slots (get_elem? s.clients i) s h)

  length-accept_client :
      (fd : ℕ) (clients : List Client) (stats : Stats) (w : World)
      → length (accept_client P fd clients stats w).0 ≡ length clients
  unfolding accept_client
  length-accept_client fd clients stats w = found (find_free_client clients 0)
    where
      found :
          (o : Option ℕ)
          → length
              (elim o as (λ _. List Client × Stats × World) [
                | none ↦ (clients, stats, P.close w fd)
                | some i ↦
                    if not ((set_nonblocking P fd w).0 == 0)
                    then (clients, stats, P.close (set_nonblocking P fd w).1 fd)
                    else (
                      set clients i (client_init P fd (set_nonblocking P fd w).1).0,
                      record stats { accepted_connections = next_count stats.accepted_connections },
                      (client_init P fd (set_nonblocking P fd w).1).1,
                    )
              ]).0
            ≡ length clients
      found none = refl
      found (some i) =
          ground (arith, length-set clients i (client_init P fd (set_nonblocking P fd w).1).0)

  length-accept_loop :
      (fuel fd : ℕ) (clients : List Client) (stats : Stats) (w : World)
      → length (accept_loop P fuel fd clients stats w).1 ≡ length clients
  unfolding accept_loop
  length-accept_loop zero fd clients stats w = refl
  length-accept_loop (suc fuel) fd clients stats w =
      accepted (P.accept w fd).0 (length-accept_loop fuel fd clients stats (P.accept w fd).1) (λ c.
        length-accept_loop fuel fd (accept_client P c clients stats (P.accept w fd).1).0
          (accept_client P c clients stats (P.accept w fd).1).1
          (accept_client P c clients stats (P.accept w fd).1).2
        ∙ length-accept_client c clients stats (P.accept w fd).1)
    where
      next : ℕ → ℕ × List Client × Stats × World
      next c =
          accept_loop P fuel fd (accept_client P c clients stats (P.accept w fd).1).0
            (accept_client P c clients stats (P.accept w fd).1).1
            (accept_client P c clients stats (P.accept w fd).1).2

      accepted :
          (r : Result ℕ)
          → length (accept_loop P fuel fd clients stats (P.accept w fd).1).1 ≡ length clients
          → ((c : ℕ) → length (next c).1 ≡ length clients)
          → length
              (elim r as (λ _. ℕ × List Client × Stats × World) [
                | err e ↦
                    if e == eintr
                    then accept_loop P fuel fd clients stats (P.accept w fd).1
                    else (0, clients, stats, (P.accept w fd).1)
                | ok c ↦ next c
              ]).1
            ≡ length clients
      accepted (err e) hr hn = ground (arith, hr)
      accepted (ok c) hr hn = hn c

  accept_ready-IsServing :
      (fd slots : ℕ) (s : Server P) → IsServing slots s → IsServing slots (accept_ready P fd s)
  unfolding accept_ready
  accept_ready-IsServing fd slots s h = record {
    valid = h.valid;
    slots_eq = length-accept_loop _ fd s.clients s.state.stats s.state.world ∙ h.slots_eq;
  }

  length-close_late :
      (now : ℕ) (clients : List Client) (w : World)
      → length (close_late P now clients w).0 ≡ length clients
  unfolding close_late
  length-close_late now [] w = refl
  length-close_late now (c ∷ rest) w = ap suc (length-close_late now rest _)

  close_timed_out_clients-IsServing :
      (slots : ℕ) (s : Server P) → IsServing slots s → IsServing slots (close_timed_out_clients P s)
  unfolding close_timed_out_clients
  close_timed_out_clients-IsServing slots s h = record {
    valid = h.valid;
    slots_eq = length-close_late _ s.clients _ ∙ h.slots_eq;
  }

  polled-IsServing :
      (cfg : Config) (fd slots : ℕ) (entries : List (ℕ × PollFd)) (revents : List ℕ) (s : Server P)
      → IsServing slots s
      → IsServing slots (polled P cfg fd entries revents s)
  unfolding polled
  polled-IsServing cfg fd slots entries revents s h =
      let s1 = if bit_and (get_or revents 0 0) pollin == 0 then s else accept_ready P fd s in
      let h1 : IsServing slots s1 = accepted (bit_and (get_or revents 0 0) pollin == 0) in
      let h2 =
        close_timed_out_clients-IsServing slots _
          (serve_loop-IsServing cfg slots entries (rest_of P revents) s1 h1) in
      record {
        valid = sync_server-IsValid P false _ h2.valid;
        slots_eq = unfold sync_server in h2.slots_eq;
      }
    where
      accepted : (b : Bool) → IsServing slots (if b then s else accept_ready P fd s)
      accepted true = h
      accepted false = accept_ready-IsServing fd slots s h

  round-IsServing :
      (cfg : Config) (fd slots : ℕ) (s : Server P)
      → IsServing slots s
      → IsServing slots (round P cfg fd s).1
  unfolding round
  round-IsServing cfg fd slots s h = ended (P.poll s.state.world _ poll_timeout_ms)
    where
      ended :
          (r : Result (List ℕ) × World)
          → IsServing slots
              (elim r.0 as (λ _. Bool × Server P) [
                | err e ↦
                    if e == eintr
                    then (true, record s { state = record s.state { world = r.1 } })
                    else (false, record s { state = record s.state { world = r.1 } })
                | ok revents ↦ (
                  true,
                  polled P cfg fd
                      (poll_entries s.clients 0)
                      revents
                      (record s { state = record s.state { world = r.1 } }),
                )
              ]).1
      ended (err e, w) = ground (arith, h)
      ended (ok revents, w) =
          polled-IsServing cfg fd slots (poll_entries s.clients 0) revents _
            (record { valid = h.valid; slots_eq = h.slots_eq })

  -- The states that the loop passes through: a round is made while the loop goes on and no signal
  -- has stopped it.
  pub data Reach (cfg : Config) (fd : ℕ) (start : Server P) : Bool → Server P → Type 0 where
    here : Reach cfg fd start true start
    turn :
        (s : Server P)
        → Reach cfg fd start true s
        → P.stopping s.state.world ≡ false
        → Reach cfg fd start (round P cfg fd s).0 (round P cfg fd s).1

  -- From a well-formed set of filters, in every state that the loop of `main` reaches, whatever
  -- the clients send and the system answers, the set of filters is well-formed and there are as
  -- many slots for clients as at the beginning.
  pub Reach-IsServing :
      (cfg : Config) (fd slots : ℕ) (start s : Server P) (going : Bool)
      → IsServing slots start
      → Reach cfg fd start going s
      → IsServing slots s
  Reach-IsServing cfg fd slots start s going h here = h
  Reach-IsServing cfg fd slots start s going h (turn s0 r running) =
      round-IsServing cfg fd slots s0 (Reach-IsServing cfg fd slots start s0 true h r)
