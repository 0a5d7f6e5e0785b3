-- ===== src/Api/Live.antt =====
-- backend/app/core/ws_manager.py and api/v1/ws.py: live updates of the dashboards. A `for` over a
-- Python list reads it at an index that goes up; what other coroutines do to the list during the
-- sending number `i` is `meanwhile i`. Whether a client takes a message is a parameter.
use job_schedular.Prelude.{
  ℕ, zero, suc, ◌==◌, ==-refl, ==→≡, Bool, true, false, not, true≢false, Bool-cases, Option, none,
  some, List, [], ◌∷◌, ◌++◌, length, drop, String, str_eq, if◌then◌else◌, any_where, select_where,
  select_where-passes, All, ◌≡◌, refl, sym, ap, ◌∙◌, inl, inr,
}
use mathlib.Core.List.{append_assoc, append-nil}

-- A client by its identity, which is how web sockets are compared.
abbrev Socket : Type 0
Socket = ℕ

-- list.append
unfoldable connect : Socket → List Socket → List Socket
connect s active = active ++ s ∷ []

-- list.remove: the first occurrence
unfoldable remove : Socket → List Socket → List Socket
remove s [] = []
remove s (c ∷ active) = let rest = remove s active in if c == s then active else c ∷ rest

unfoldable disconnect : Socket → List Socket → List Socket
unfolding remove
disconnect s active = if any_where (λ c. c == s) active then remove s active else active

abbrev at_index : ℕ → List Socket → Option Socket
at_index i [] = none
at_index zero (c ∷ active) = some c
at_index (suc i) (c ∷ active) = at_index i active

-- The variables of `broadcast`: the list, the clients reached so far and those that failed.
record Delivery : Type 0 where
  pub active : List Socket
  pub reached : List Socket
  pub dead : List Socket

unfoldable disconnect_all : List Socket → List Socket → List Socket
unfolding disconnect
disconnect_all [] active = active
disconnect_all (d ∷ dead) active = disconnect_all dead (disconnect d active)

module _ (accepts : Socket → Bool) (meanwhile : ℕ → List Socket → List Socket) where
  -- await conn.send_text(message), or dead_connections.append(conn)
  abbrev send : ℕ → Socket → Delivery → Delivery
  send i c s = record {
    active = meanwhile i s.active;
    reached = if accepts c then s.reached ++ c ∷ [] else s.reached;
    dead = if accepts c then s.dead else s.dead ++ c ∷ [];
  }

  -- The loop from index `i` on; `none` when the fuel does not reach its end.
  unfoldable send_all : ℕ → ℕ → Delivery → Option Delivery
  send_all zero i s = none
  send_all (suc fuel) i s = elim (at_index i s.active) [
    | none ↦ some s
    | some c ↦ send_all fuel (suc i) (send i c s)
  ]

  abbrev close : Option Delivery → Option Delivery
  close none = none
  close (some s) =
      some (record { active = disconnect_all s.dead s.active; reached = s.reached; dead = s.dead })

  unfoldable broadcast : ℕ → List Socket → Option Delivery
  unfolding disconnect_all send_all
  broadcast fuel active =
      close (send_all fuel zero (record { active = active; reached = []; dead = [] }))

-- What a client gets for what it sends: the keep-alive loop.
unfoldable replies : List String → List String
replies [] = []
replies (text ∷ more) =
    let rest = replies more in if str_eq text "ping" then "pong" ∷ rest else rest

at_index-end : (i : ℕ) (xs : List Socket) → drop i xs ≡ [] → at_index i xs ≡ none
at_index-end i [] h = refl
at_index-end zero (x ∷ xs) h = cc
at_index-end (suc i) (x ∷ xs) h = at_index-end i xs h

at_index-drop :
    (i : ℕ) (xs : List Socket) (c : Socket) (rest : List Socket)
    → drop i xs ≡ c ∷ rest
    → (at_index i xs ≡ some c) × (drop (suc i) xs ≡ rest)
at_index-drop zero [] c rest h = cc
at_index-drop (suc i) [] c rest h = cc
at_index-drop zero (x ∷ xs) c rest h = (cc, cc)
at_index-drop (suc i) (x ∷ xs) c rest h = at_index-drop i xs c rest h

module _ (accepts : Socket → Bool) where
  abbrev delivery : List Socket → List Socket → List Socket → Delivery
  delivery active reached dead = record { active = active; reached = reached; dead = dead }

  abbrev rejects : Socket → Bool
  rejects c = not (accepts c)

  send-takes :
      (i : ℕ) (c : Socket) (active reached dead : List Socket)
      → accepts c ≡ true
      → send accepts (λ _ xs. xs) i c (delivery active reached dead)
        ≡ delivery active (reached ++ c ∷ []) dead
  send-takes i c active reached dead takes = rw takes refl

  send-refuses :
      (i : ℕ) (c : Socket) (active reached dead : List Socket)
      → accepts c ≡ false
      → send accepts (λ _ xs. xs) i c (delivery active reached dead)
        ≡ delivery active reached (dead ++ c ∷ [])
  send-refuses i c active reached dead refuses = rw refuses refl

  -- Undisturbed, the loop sorts the clients that are left into those reached and those that failed.
  send_all-rest :
      (active : List Socket) (i : ℕ) (rest reached dead : List Socket)
      → drop i active ≡ rest
      → send_all accepts (λ _ xs. xs) (suc (length rest)) i (delivery active reached dead)
        ≡ some (
            delivery active
              (reached ++ select_where accepts rest)
              (dead ++ select_where rejects rest))
  unfolding send_all select_where
  send_all-rest active i [] reached dead h =
      rw (at_index-end i active h, append-nil reached, append-nil dead) refl
  send_all-rest active i (c ∷ rest) reached dead h =
      let next = at_index-drop i active c rest h in
      rw next.0 (elim (Bool-cases (accepts c)) [
        | inl takes ↦
            ap (send_all accepts _ (suc (length rest)) (suc i))
              (send-takes i c active reached dead takes)
            ∙ send_all-rest active (suc i) rest (reached ++ c ∷ []) dead next.1
            ∙ rw (takes, append_assoc reached (c ∷ []) (select_where accepts rest)) refl
        | inr refuses ↦
            ap (send_all accepts _ (suc (length rest)) (suc i))
              (send-refuses i c active reached dead refuses)
            ∙ send_all-rest active (suc i) rest reached (dead ++ c ∷ []) next.1
            ∙ rw (refuses, append_assoc dead (c ∷ []) (select_where rejects rest)) refl
      ])

  apart : (c d : Socket) → accepts c ≡ true → rejects d ≡ true → (c == d) ≡ false
  apart c d takes refuses = elim (Bool-cases (c == d)) [
    | inl same ↦ absurd (true≢false (sym refuses ∙ ap rejects (sym (==→≡ c d same)) ∙ ap not takes))
    | inr other ↦ other
  ]

  disconnect-skips :
      (c d : Socket) (active : List Socket)
      → (c == d) ≡ false
      → disconnect d (c ∷ active) ≡ c ∷ disconnect d active
  unfolding disconnect remove any_where
  disconnect-skips c d active other = rw other (elim (Bool-cases (any_where (λ x. x == d) active)) [
    | inl found ↦ rw found refl
    | inr missing ↦ rw missing refl
  ])

  disconnect_all-skips :
      (c : Socket) (dead active : List Socket)
      → accepts c ≡ true
      → All (λ d. rejects d ≡ true) dead
      → disconnect_all dead (c ∷ active) ≡ c ∷ disconnect_all dead active
  unfolding disconnect_all
  disconnect_all-skips c [] active takes refuses = refl
  disconnect_all-skips c (d ∷ dead) active takes refuses =
      rw (disconnect-skips c d active (apart c d takes refuses.0))
        (disconnect_all-skips c dead (disconnect d active) takes refuses.1)

  -- Taking the failed clients out of the list leaves those that were reached.
  disconnect_all-rejects :
      (active : List Socket)
      → disconnect_all (select_where rejects active) active ≡ select_where accepts active
  unfolding disconnect_all select_where disconnect remove any_where
  disconnect_all-rejects [] = refl
  disconnect_all-rejects (c ∷ active) = elim (Bool-cases (accepts c)) [
    | inl takes ↦
        rw (takes, disconnect_all-skips c _ active takes (select_where-passes rejects active))
          (ap (λ xs. c ∷ xs) (disconnect_all-rejects active))
    | inr refuses ↦ rw (refuses, ==-refl c) (disconnect_all-rejects active)
  ]

  -- A broadcast during which no client comes or goes ends, has reached every client that takes the
  -- message, in the order in which they connected, and leaves exactly those connected.
  broadcast-active :
      (active : List Socket)
      → broadcast accepts (λ _ xs. xs) (suc (length active)) active
        ≡ some (
            delivery
              (select_where accepts active)
              (select_where accepts active)
              (select_where rejects active))
  unfolding broadcast
  broadcast-active active =
      rw (send_all-rest active zero active [] [] refl, disconnect_all-rejects active) refl

remove-connect :
    (s : Socket) (active : List Socket)
    → any_where (λ c. c == s) active ≡ false
    → (any_where (λ c. c == s) (connect s active) ≡ true) × (remove s (connect s active) ≡ active)
unfolding connect remove any_where
remove-connect s [] h = rw (==-refl s) (refl, refl)
remove-connect s (c ∷ active) h = elim (Bool-cases (c == s)) [
  | inl same ↦ absurd (true≢false (sym (rw same refl) ∙ h))
  | inr other ↦
      let rest = remove-connect s active (sym (rw other refl) ∙ h) in
      rw other ((rest.0, ap (λ xs. c ∷ xs) rest.1))
]

-- A client that connects and disconnects leaves the others as they were.
disconnect-connect :
    (s : Socket) (active : List Socket)
    → any_where (λ c. c == s) active ≡ false
    → disconnect s (connect s active) ≡ active
unfolding disconnect
disconnect-connect s active h = let found = remove-connect s active h in rw found.0 found.1

abbrev leaves_at_first : ℕ → List Socket → List Socket
leaves_at_first zero active = disconnect 1 active
leaves_at_first (suc i) active = active

-- The first client leaves while it is being sent to: the second is skipped.
leaving_skips_the_next :
    broadcast (λ c. true) leaves_at_first 4 (1 ∷ 2 ∷ 3 ∷ [])
    ≡ some (record { active = 2 ∷ 3 ∷ []; reached = 1 ∷ 3 ∷ []; dead = [] })
unfolding broadcast send_all disconnect_all disconnect remove any_where
leaving_skips_the_next = refl
