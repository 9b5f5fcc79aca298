-- ===== src/Sessions/Receiving.antt =====
-- server/internal/models/session.go: what WaitForMessages takes from the channel.
use fragua_age.Prelude.{
  ℕ, ◌+◌, ◌%◌, ◌^◌, ◌≤◌, ◌<◌, ◌≡◌, refl, sym, ◌∙◌, ap, Bool, true, false, ◌&&◌, List, [], ◌∷◌, ◌++◌,
  length, length-append, ltb, arith, inl, inr, Bool-cases, if◌then◌else◌,
}
use fragua_age.Sessions.{Received, receive, wait_for_messages}

module _ {M : Type 0} where
  append_assoc : (xs ys zs : List M) → (xs ++ ys) ++ zs ≡ xs ++ (ys ++ zs)
  append_assoc [] ys zs = refl
  append_assoc (x ∷ xs) ys zs = ap (◌∷◌ x) (append_assoc xs ys zs)

  append_nil : (xs : List M) → xs ++ [] ≡ xs
  append_nil [] = refl
  append_nil (x ∷ xs) = ap (◌∷◌ x) (append_nil xs)

module _ {M : Type 0} (cap ack : ℕ) where
  -- The messages in the channel are taken first.
  receive-queue :
      (q results arriving : List M)
      → receive cap ack true results q arriving ≡ receive cap ack true (results ++ q) [] arriving
  unfolding receive
  receive-queue [] results arriving =
      ap (λ r. receive cap ack true r [] arriving) (sym (append_nil results))
  receive-queue (m ∷ q) results arriving =
      receive-queue q (results ++ m ∷ []) arriving
      ∙ ap (λ r. receive cap ack true r [] arriving) (append_assoc results (m ∷ []) q)

  -- In the outer loop, or with a full batch: what arrives is taken too, until the batch is no longer full.
  receive-full :
      (d : Bool) (results arriving : List M)
      → (d && ltb (length results) cap) ≡ false
      → cap ≤ length results
      → receive cap ack d results [] arriving
        ≡ record { ack = ack; results = results ++ arriving; later = [] }
  unfolding receive
  receive-full d results [] n h = ground (arith, n, append_nil results)
  receive-full d results (a ∷ arriving) n h = ground (
    arith,
    n,
    receive-full true (results ++ a ∷ []) arriving
        (ground (arith, h, length-append results (a ∷ [])))
        (omega (arith, h, length-append results (a ∷ []))),
    append_assoc results (a ∷ []) arriving,
  )

  receive-batch :
      (m : M) (q arriving : List M)
      → receive cap ack true (m ∷ q) [] arriving ≡ (
          if ltb (length (m ∷ q)) cap
          then record { ack = (ack + 1) % 2 ^ 64; results = m ∷ q; later = arriving }
          else record { ack = ack; results = m ∷ (q ++ arriving); later = [] })
  unfolding receive
  receive-batch m q arriving = elim (Bool-cases (ltb (length (m ∷ q)) cap)) [
    | inl few ↦ early arriving few
    | inr full ↦
        receive-full true (m ∷ q) arriving full (ground (arith, full)) ∙ ground (arith, full)
  ]
    where
      early :
          (rest : List M)
          → ltb (length (m ∷ q)) cap ≡ true
          → receive cap ack true (m ∷ q) [] rest ≡ (
              if ltb (length (m ∷ q)) cap
              then record { ack = (ack + 1) % 2 ^ 64; results = m ∷ q; later = rest }
              else record { ack = ack; results = m ∷ (q ++ rest); later = [] })
      early [] few = ground (arith, few)
      early (a ∷ rest) few = ground (arith, few)

-- The specification, in closed form.
abbrev pub taken : {M : Type 0} → ℕ → ℕ → List M → List M → Received M
taken size ack [] [] = record { ack = ack; results = []; later = [] }
taken size ack [] (a ∷ arriving) = record {
  ack = (ack + 1) % 2 ^ 64;
  results = a ∷ [];
  later = arriving;
}
taken size ack (m ∷ q) arriving =
    if ltb (length (m ∷ q)) size
    then record { ack = (ack + 1) % 2 ^ 64; results = m ∷ q; later = arriving }
    else record { ack = ack; results = m ∷ (q ++ arriving); later = [] }

-- A call of WaitForMessages on a channel of more than one place. With some messages in the channel but
-- fewer than its capacity, it returns them at once, in order, and the acknowledgement goes up by one. With
-- as many as the capacity or more, it takes all of them and whatever comes until its timer fires, and the
-- acknowledgement stays. On an empty channel it returns the first message that comes, with the
-- acknowledgement one up, or none when the timer fires first. No message is lost.
pub wait_for_messages-takes :
    {M : Type 0} (size ack : ℕ) (q arriving : List M)
    → 1 < size
    → wait_for_messages size ack q arriving ≡ taken size ack q arriving
unfolding wait_for_messages receive
wait_for_messages-takes size ack [] [] h = refl
wait_for_messages-takes size ack [] (a ∷ []) h = ground (arith, h)
wait_for_messages-takes size ack [] (a ∷ (b ∷ arriving)) h = ground (arith, h)
wait_for_messages-takes size ack (m ∷ q) arriving h =
    ground (arith, receive-queue size ack q (m ∷ []) arriving, receive-batch size ack m q arriving)
