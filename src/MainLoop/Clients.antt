-- ===== src/MainLoop/Clients.antt =====
-- Accepting clients and closing silent ones, in src/daemon.c.
use kbloomd.Common.{
  ℕ, zero, suc, ◌+◌, ◌≤◌, ◌<◌, ◌≡◌, ◌⊎◌, inl, inr, refl, ap, arith, Bool, true, false, List, [],
  ◌∷◌, err, Result-cases, Bool-cases, if◌then◌else◌, ◌==◌, eintr, ltb, le_of_ltb, bit_or,
  Option-cases,
}
use kbloomd.Platform.{Platform}
use kbloomd.Platform.Laws.{AcceptLaws}
use kbloomd.Daemon.{Stats}
use kbloomd.FilterState.{now_ms}
use kbloomd.Client.{Client, client_init, client_close}
use kbloomd.MainLoop.{
  Server, set_nonblocking, accept_client, accept_loop, close_late, close_timed_out_clients,
  is_empty, elapsed, req_timeout_ms, find_free_client,
}

-- Every slot is empty or was active in the last 5000 ms, by the clock's reading `now`.
abbrev pub AreTimely : ℕ → List Client → Type 0
AreTimely now [] = Unit
AreTimely now (c ∷ rest) =
    ((is_empty c.state ≡ true) ⊎ (elapsed now c.last_activity_ms ≤ req_timeout_ms))
    × AreTimely now rest

module _ (P : Platform) where
  open P use {World}

  close_late-AreTimely :
      (now : ℕ) (clients : List Client) (w : World) → AreTimely now (close_late P now clients w).0
  unfolding close_late
  close_late-AreTimely now [] w = tt
  close_late-AreTimely now (c ∷ rest) w = (
    turn (is_empty c.state) refl (ltb req_timeout_ms (elapsed now c.last_activity_ms)) refl,
    close_late-AreTimely now rest _,
  )
    where
      kept : Bool → Bool → Client × World
      kept e late = if e then (c, w) else if late then client_close P c w else (c, w)

      turn :
          (e : Bool)
          → is_empty c.state ≡ e
          → (late : Bool) → ltb req_timeout_ms (elapsed now c.last_activity_ms) ≡ late
          → (is_empty (kept e late).0.state ≡ true)
            ⊎ (elapsed now (kept e late).0.last_activity_ms ≤ req_timeout_ms)
      turn true is late was = inl is
      turn false is true was = inl (unfold client_close is_empty in refl)
      turn false is false was = inr (le_of_ltb req_timeout_ms (elapsed now c.last_activity_ms) was)

  -- After bloomd_close_timed_out_clients, every slot is empty or its client was active in the last
  -- 5000 ms, by the time that the function read.
  pub close_timed_out_clients-AreTimely :
      (s : Server P) → AreTimely (now_ms P s.state.world).0 (close_timed_out_clients P s).clients
  unfolding close_timed_out_clients
  close_timed_out_clients-AreTimely s = close_late-AreTimely _ s.clients _

  module _ (laws : AcceptLaws P) where
    -- What the queue still holds, with the interruptions to come.
    abbrev left : World → ℕ
    left w = P.connections_left w + P.interrupts w

    set_nonblocking_left : (fd : ℕ) (w : World) → left (set_nonblocking P fd w).1 ≤ left w
    unfolding set_nonblocking
    set_nonblocking_left fd w = elim (Result-cases (P.get_flags w fd).0) [
      | inr (e, eq) ↦ rw (set_nonblocking, eq) (laws.get_flags_left w fd)
      | inl (n, eq) ↦
          rw (set_nonblocking, eq)
            (omega (
              arith,
              laws.get_flags_left w fd,
              laws.set_flags_left (P.get_flags w fd).1 fd (bit_or n 0x800),
            ))
    ]

    accept_client_left :
        (fd : ℕ) (clients : List Client) (stats : Stats) (w : World)
        → left (accept_client P fd clients stats w).2 ≤ left w
    unfolding accept_client client_init now_ms
    accept_client_left fd clients stats w = elim (Option-cases (find_free_client clients 0)) [
      | inl eq ↦ rw (accept_client, eq) (laws.close_left w fd)
      | inr (i, eq) ↦
          rw (accept_client, eq)
            (ground (
              arith,
              set_nonblocking_left fd w,
              laws.close_left (set_nonblocking P fd w).1 fd,
              laws.clock_left (set_nonblocking P fd w).1,
            ))
    ]

    accept_loop-returns :
        (fuel listen_fd : ℕ) (clients : List Client) (stats : Stats) (w : World)
        → left w < fuel
        → (accept_loop P fuel listen_fd clients stats w).0 ≡ 0
    unfolding accept_loop
    accept_loop-returns zero listen_fd clients stats w enough = absurd (omega arith)
    accept_loop-returns (suc fuel) listen_fd clients stats w enough =
        elim (Result-cases (P.accept w listen_fd).0) [
          | inr (e, eq) ↦
              rw (accept_loop, eq)
                (elim (Bool-cases (e == eintr)) [
                  | inl i ↦ rw i (
                      accept_loop-returns fuel listen_fd clients stats w1 (
                        omega (
                          arith,
                          enough,
                          laws.accept_eintr w listen_fd (rw eq (ap err (ground arith))),
                        )))
                  | inr i ↦ rw i
                ])
          | inl (fd, eq) ↦
              rw (accept_loop, eq)
                (accept_loop-returns fuel listen_fd _ _ _ (
                  omega (
                    arith,
                    enough,
                    laws.accept_ok w listen_fd fd eq,
                    accept_client_left fd clients stats w1,
                  )))
        ]
      where
        w1 : World
        w1 = (P.accept w listen_fd).1

    -- With a queue of which every connection taken and every interruption uses up a part,
    -- bloomd_accept_ready returns: the fuel of its loop never runs out.
    pub accept_ready-returns :
        (listen_fd : ℕ) (s : Server P)
        → (accept_loop P
            (suc (left s.state.world))
            listen_fd
            s.clients
            s.state.stats
            s.state.world).0
          ≡ 0
    accept_ready-returns listen_fd s =
        accept_loop-returns (suc (left s.state.world)) listen_fd s.clients s.state.stats
          s.state.world (omega arith)
