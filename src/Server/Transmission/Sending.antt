-- ===== src/Server/Transmission/Sending.antt =====
-- What `f_socket_write` has sent, and what `f_socket_read` gives to the reader of a message.
use coremio.Prelude.{
  ℕ, zero, suc, ◌+◌, ◌-◌, ◌≤◌, ◌<◌, ◌≡◌, refl, sym, ap, ◌∙◌, Bool, true, false, List, [], ◌∷◌, ◌++◌,
  if◌then◌else◌, ltb, inl, inr, Bool-cases, arith, length, take, drop,
}
use coremio.Server.{noice, is_noice}
use coremio.Server.Transmission.{
  Select, ready, select_failed, timed_out, Accepted, accepts, accepts_nothing, send_failed,
  Transmission, send_once, goes_on, send_rounds, socket_write,
}

-- what the system took is the first `total` bytes of the buffer
pub record Sends (buffer : List ℕ) (t : Transmission) : Type 0 where
  pub within : t.total ≤ length buffer
  pub in_order : t.taken ≡ take t.total buffer

take_nil : (n : ℕ) → take {A = ℕ} n [] ≡ []
take_nil zero = refl
take_nil (suc n) = refl

take-drop :
    (a n end : ℕ) (xs : List ℕ) → end ≡ a + n → take a xs ++ take n (drop a xs) ≡ take end xs
take-drop zero n end xs e = ap (λ k. take k xs) (plain n end e)
  where
    plain : (n end : ℕ) → end ≡ 0 + n → n ≡ end
    plain n end e = omega (arith, e)
take-drop (suc a) n end [] e = take_nil n ∙ sym (take_nil end)
take-drop (suc a) n zero (x ∷ xs) e = absurd (omega (arith, e))
take-drop (suc a) n (suc end) (x ∷ xs) e =
    ap (λ ys. x ∷ ys) (take-drop a n end xs (omega (arith, e)))

take_all : (n : ℕ) (xs : List ℕ) → length xs ≤ n → take n xs ≡ take (length xs) xs
take_all zero [] h = refl
take_all (suc n) [] h = refl
take_all zero (x ∷ xs) h = absurd (omega (arith, h))
take_all (suc n) (x ∷ xs) h = ap (λ ys. x ∷ ys) (take_all n xs (omega (arith, h)))

send_once-Sends :
    (buffer : List ℕ) (s : Select) (a : Accepted) (t : Transmission)
    → Sends buffer t
    → Sends buffer (send_once buffer s a t)
unfolding send_once
send_once-Sends buffer ready (accepts n) t h = elim (Bool-cases (ltb n (length buffer - t.total))) [
  | inl less ↦
      rw (less, send_once)
        (record {
          within = omega (arith, h.within, fits n (length buffer - t.total) less);
          in_order =
              ap (λ ys. ys ++ take n (drop t.total buffer)) h.in_order
              ∙ take-drop t.total n (t.total + n) buffer refl;
        })
  | inr all ↦
      rw (all, send_once)
        (record {
          within = omega arith;
          in_order =
              ap (λ ys. ys ++ take n (drop t.total buffer)) h.in_order
              ∙ take-drop t.total n (t.total + n) buffer refl
              ∙ take_all (t.total + n) buffer
                  (omega (arith, h.within, rest n (length buffer - t.total) all));
        })
]
  where
    fits : (a b : ℕ) → ltb a b ≡ true → a < b
    fits a b e = ground arith

    rest : (a b : ℕ) → ltb a b ≡ false → b ≤ a
    rest a b e = ground arith
send_once-Sends buffer ready accepts_nothing t h = h
send_once-Sends buffer ready (send_failed true) t h = h
send_once-Sends buffer ready (send_failed false) t h = record {
  within = h.within;
  in_order = h.in_order;
}
send_once-Sends buffer (select_failed m) a t h = record { within = h.within; in_order = h.in_order }
send_once-Sends buffer timed_out a t h = record { within = h.within; in_order = h.in_order }

send_rounds-Sends :
    (buffer : List ℕ) (answers : List (Select × Accepted)) (t : Transmission)
    → Sends buffer t
    → Sends buffer (send_rounds buffer answers t).1
unfolding send_rounds
send_rounds-Sends buffer [] t h = h
send_rounds-Sends buffer ((s, a) ∷ answers) t h =
    let kept = send_once-Sends buffer s a t h in
    elim (Bool-cases (goes_on buffer (send_once buffer s a t))) [
      | inl more ↦
          rw (more, send_rounds) (send_rounds-Sends buffer answers (send_once buffer s a t) kept)
      | inr over ↦ rw (over, send_rounds) kept
    ]

-- a run that has ended does not go on
send_rounds-goes_on :
    (buffer : List ℕ) (answers : List (Select × Accepted)) (t : Transmission)
    → (send_rounds buffer answers t).0 ≡ false
    → goes_on buffer (send_rounds buffer answers t).1 ≡ false
unfolding send_rounds
send_rounds-goes_on buffer [] t e = ground arith
send_rounds-goes_on buffer ((s, a) ∷ answers) t e =
    elim (Bool-cases (goes_on buffer (send_once buffer s a t))) [
      | inl more ↦
          rw (more, send_rounds)
            (send_rounds-goes_on buffer answers (send_once buffer s a t)
              (rw (more, send_rounds) at e))
      | inr over ↦ rw (over, send_rounds) over
    ]

whole : (xs : List ℕ) → take (length xs) xs ≡ xs
whole [] = refl
whole (x ∷ xs) = ap (λ ys. x ∷ ys) (whole xs)

-- Whatever the system answers, what it took from `f_socket_write` is the first `write_size` bytes of the buffer,
-- each once and in order; and when the run ends with `NOICE`, it is all of them.
pub socket_write-Sends :
    (buffer : List ℕ) (answers : List (Select × Accepted))
    → Sends buffer (socket_write buffer answers).1
      × ((socket_write buffer answers).0 ≡ false
          → is_noice (socket_write buffer answers).1.result ≡ true
          → ((socket_write buffer answers).1.total ≡ length buffer)
            × ((socket_write buffer answers).1.taken ≡ buffer))
unfolding socket_write
socket_write-Sends buffer answers = (sends, λ ends noice. finished ends noice)
  where
    start : Transmission
    start = record { result = noice; total = 0; taken = [] }

    t : Transmission
    t = (send_rounds buffer answers start).1

    sends : Sends buffer t
    sends =
        send_rounds-Sends buffer answers start (record { within = omega arith; in_order = refl })

    finished :
        (send_rounds buffer answers start).0 ≡ false
        → is_noice t.result ≡ true
        → (t.total ≡ length buffer) × (t.taken ≡ buffer)
    finished ends is =
        let all =
          at_end (is_noice t.result) t.total (length buffer) is
            (send_rounds-goes_on buffer answers start ends) sends.within in
        (all, sends.in_order ∙ ap (λ n. take n buffer) all ∙ whole buffer)
      where
        at_end :
            (b : Bool) (total size : ℕ)
            → b ≡ true
            → (if b then ltb total size else false) ≡ false
            → total ≤ size
            → total ≡ size
        at_end b total size is e h = ground arith

-- rounds that each take a byte or more, one more than the number
abbrev pub taking : List ℕ → List (Select × Accepted)
taking [] = []
taking (n ∷ sizes) = (ready, accepts (suc n)) ∷ taking sizes

-- what is left to send gets less
less_left :
    (a size total n : ℕ)
    → size - total ≤ suc a
    → size - (if ltb (suc n) (size - total) then total + suc n else size) ≤ a
less_left a size total n h = ground arith

send_rounds-taking :
    (buffer sizes : List ℕ) (t : Transmission)
    → is_noice t.result ≡ true
    → 0 < length sizes
    → length buffer - t.total ≤ length sizes
    → ((send_rounds buffer (taking sizes) t).0 ≡ false)
      × (is_noice (send_rounds buffer (taking sizes) t).1.result ≡ true)
unfolding send_rounds send_once
send_rounds-taking buffer [] t is some_left enough = absurd (omega (arith, some_left))
send_rounds-taking buffer (n ∷ sizes) t is some_left enough =
    let t' = send_once buffer ready (accepts (suc n)) t in
    let less = less_left (length sizes) (length buffer) t.total n enough in
    elim (Bool-cases (goes_on buffer t')) [
      | inl more ↦
          rw (more, send_rounds)
            (send_rounds-taking buffer sizes t' is
              (left is (length buffer) t'.total (length sizes) more less) less)
      | inr over ↦ rw (over, send_rounds) (refl, is)
    ]
  where
    left :
        {b : Bool}
        → b ≡ true
        → (size total a : ℕ) → (if b then ltb total size else false) ≡ true
        → size - total ≤ a
        → 0 < a
    left {b} is size total a more less = ground arith

-- When the system takes at least a byte in each round, `f_socket_write` ends with `NOICE` after at most as many
-- rounds as there are bytes, and one for an empty buffer, and all bytes are sent.
pub socket_write-taking :
    (buffer sizes : List ℕ)
    → 0 < length sizes
    → length buffer ≤ length sizes
    → ((socket_write buffer (taking sizes)).0 ≡ false)
      × (is_noice (socket_write buffer (taking sizes)).1.result ≡ true)
      × ((socket_write buffer (taking sizes)).1.taken ≡ buffer)
unfolding socket_write
socket_write-taking buffer sizes some_left enough =
    let (ends, is) =
      send_rounds-taking buffer sizes (record { result = noice; total = 0; taken = [] }) refl
        some_left (omega (arith, enough)) in
    (ends, is, ((socket_write-Sends buffer (taking sizes)).1 ends is).1)
