-- ===== src/HttpPayload/Serialize/Printed.antt =====
-- What is printed, and that it fits.
use mathlib.Core.Path.{subst}
use coremio.Prelude.{
  ℕ, zero, suc, ◌+◌, ◌-◌, ◌<◌, ◌≤◌, ◌≡◌, refl, sym, ap, ◌∙◌, true, false, Option, none, some, List,
  [], ◌∷◌, ◌++◌, append_assoc, append-nil, ltb, leb, if◌then◌else◌, Bool-cases, ◌⊎◌, inl, inr,
  arith, Text, length, length-append, take, length-take_le,
}
use coremio.Dictionary.{Entry, foreach}
use coremio.Dictionary.Visit.{visit_all, pre_order, foreach_pre_order-visit_all}
use coremio.HttpPayload.{Payload, Library, is_undefined}
use coremio.HttpPayload.Unserialize.{new_line, content_length}
use coremio.HttpPayload.Serialize.{
  Container, serialized, stored, first_bytes, or_empty, additional, print, header_text,
  serialize_header, start_line, start_size, payload_size, finish, serialize, printed_code,
  buffer_step,
}

additional_enough :
    (k needed size : ℕ) → needed ≤ k + size → needed ≤ size + additional k needed size
unfolding additional
additional_enough zero needed size h = omega (arith, h)
additional_enough (suc k) needed size h =
    ground (arith, additional_enough k needed (size + buffer_step))

-- every header has a value
abbrev pub HaveValues : List (Entry (Option Text)) → Type 0
HaveValues [] = Unit
HaveValues (e ∷ es) = ((value : Text) × (e.content ≡ some value)) × HaveValues es

-- the lines of the headers
unfoldable pub header_lines : List (Entry (Option Text)) → Text
header_lines [] = []
header_lines (e ∷ es) = header_text e.key (or_empty e.content) ++ header_lines es

-- a container with a text, and room for a final zero
pub record Holds (text : Text) (o : Option Container) : Type 0 where
  pub container : Container
  pub some_of : o ≡ some container
  pub holds : container.text ≡ text
  pub room : length text + 1 ≤ container.buffer_size

print-Holds :
    (text more : Text) (c : Container)
    → c.text ≡ text
    → length text + length more + 1 ≤ c.buffer_size
    → Holds (text ++ more) (print more c)
unfolding print
print-Holds text more c same room = record {
  container = record c { text = c.text ++ more };
  some_of = rw (enough (length c.text) (length more) c.buffer_size (rw same room), print) refl;
  holds = ap (λ t. t ++ more) same;
  room = omega (arith, length-append text more, room);
}
  where
    enough : (a b n : ℕ) → a + b + 1 ≤ n → leb (a + b + 1) n ≡ true
    enough a b n h = ground arith

serialize_header-Holds :
    (text : Text) (e : Entry (Option Text)) (value : Text) (o : Option Container)
    → e.content ≡ some value
    → Holds text o
    → Holds (text ++ header_text e.key value) (serialize_header (λ _. true) e o)
unfolding serialize_header
serialize_header-Holds text e value o v h =
    rw (h.some_of, v, serialize_header) (settled (Bool-cases (ltb 0 space)))
  where
    more : Text
    more = header_text e.key value

    needed : ℕ
    needed = length h.container.text + length more + 1

    space : ℕ
    space = additional needed needed h.container.buffer_size

    fits : needed ≤ h.container.buffer_size + space
    fits = additional_enough needed needed h.container.buffer_size (omega arith)

    same_length : length h.container.text ≡ length text
    same_length = ap length h.holds

    settled :
        (ltb 0 space ≡ true) ⊎ (ltb 0 space ≡ false)
        → Holds (text ++ more) (
            if ltb 0 space
            then print more (record h.container { buffer_size = h.container.buffer_size + space })
            else print more h.container)
    settled (inl grows) = rw grows (
        print-Holds text more (record h.container { buffer_size = h.container.buffer_size + space })
          h.holds (omega (arith, fits, same_length)))
    settled (inr stays) = rw stays (
        print-Holds text more h.container h.holds
          (omega (arith, fits, same_length, no_space space stays)))
      where
        no_space : (n : ℕ) → ltb 0 n ≡ false → n ≡ 0
        no_space n e = ground arith

visit_all-Holds :
    (es : List (Entry (Option Text))) (text : Text) (o : Option Container)
    → HaveValues es
    → Holds text o
    → Holds (text ++ header_lines es) (visit_all (serialize_header (λ _. true)) es o)
unfolding visit_all header_lines
visit_all-Holds [] text o v h = rw (append-nil text) h
visit_all-Holds (e ∷ es) text o (v, vs) h =
    rw (sym (append_assoc text (header_text e.key (or_empty e.content)) (header_lines es))) (
      visit_all-Holds es (text ++ header_text e.key (or_empty e.content))
        (serialize_header (λ _. true) e o) vs
        (subst (λ value. Holds (text ++ header_text e.key value) (serialize_header (λ _. true) e o))
          (sym (ap or_empty v.1)) (serialize_header-Holds text e v.0 o v.1 h)))

printed_code_below : (code : ℕ) → printed_code code < 1000
printed_code_below code = ground arith

length-start_line :
    (library : Library) (p : Payload)
    → ((code : ℕ) → code < 1000 → length (library.three_digits code) ≡ 3)
    → length (start_line library p) ≡ start_size library p
unfolding start_line start_size
length-start_line library p three = elim (Bool-cases (is_undefined p.enumerated_method)) [
  | inl response ↦
      rw (response, start_line, start_size)
        (omega (
          arith,
          length-append (or_empty p.version) (
              32
              ∷ (library.three_digits (printed_code p.status_code)
                  ++ 32 ∷ (or_empty p.status_message ++ new_line))),
          length-append (library.three_digits (printed_code p.status_code))
              (32 ∷ (or_empty p.status_message ++ new_line)),
          length-append (or_empty p.status_message) new_line,
          three (printed_code p.status_code) (printed_code_below p.status_code),
        ))
  | inr request ↦
      rw (request, start_line, start_size)
        (omega (
          arith,
          length-append (or_empty p.method)
              (32 ∷ (or_empty p.path ++ 32 ∷ (or_empty p.version ++ new_line))),
          length-append (or_empty p.path) (32 ∷ (or_empty p.version ++ new_line)),
          length-append (or_empty p.version) new_line,
        ))
]

take_all : (xs : Text) → take (length xs) xs ≡ xs
take_all [] = refl
take_all (x ∷ xs) = ap (λ ys. x ∷ ys) (take_all xs)

first_bytes-stored :
    (n : ℕ) (o : Option (List ℕ))
    → n ≤ length (or_empty o)
    → first_bytes n (stored o) ≡ some (take n (or_empty o))
first_bytes-stored n none h = rw (zero_of n h) refl
  where
    zero_of : (n : ℕ) → n ≤ 0 → n ≡ 0
    zero_of n h = omega (arith, h)
first_bytes-stored n (some body) h = within n body h
  where
    within :
        (n : ℕ) (body : List ℕ)
        → n ≤ length body
        → first_bytes n (body ++ 0 ∷ []) ≡ some (take n body)
    within zero body h = refl
    within (suc n) [] h = absurd (omega (arith, h))
    within (suc n) (b ∷ body) h = rw (within n body (omega (arith, h))) refl

take_over : (n : ℕ) (xs : Text) → length xs < n → take n xs ≡ xs
take_over zero xs h = absurd (omega (arith, h))
take_over (suc n) [] h = refl
take_over (suc n) (x ∷ xs) h = ap (λ ys. x ∷ ys) (take_over n xs (omega (arith, h)))

-- the bytes that the headers announce are bytes of the body
payload_size-le :
    (library : Library) (p : Payload) (body : List ℕ) → payload_size library p body ≤ length body
unfolding payload_size
payload_size-le library p body = at_most (content_length library (λ _ _. true) p) (length body)
  where
    at_most : (n l : ℕ) → (if ltb l n then l else n) ≤ l
    at_most n l = ground arith

take-payload_size :
    (library : Library) (p : Payload) (body : List ℕ)
    → take (payload_size library p body) body ≡ take (content_length library (λ _ _. true) p) body
unfolding payload_size
take-payload_size library p body =
    clamped (content_length library (λ _ _. true) p)
      (Bool-cases (ltb (length body) (content_length library (λ _ _. true) p)))
  where
    clamped :
        (n : ℕ)
        → (ltb (length body) n ≡ true) ⊎ (ltb (length body) n ≡ false)
        → take (if ltb (length body) n then length body else n) body ≡ take n body
    clamped n (inl over) = rw over (take_all body ∙ sym (take_over n body (ground arith)))
    clamped n (inr inside) = rw inside refl

finish-lem :
    (library : Library) (p : Payload) (text : Text) (o : Option Container)
    → Holds text o
    → finish library (λ _. true) p o
      ≡ serialized
          (text ++ (new_line ++ take (payload_size library p (or_empty p.body)) (or_empty p.body)))
unfolding finish print
finish-lem library p text o h =
    rw (h.some_of, finish) (settled (Bool-cases (leb c.buffer_size end)))
  where
    c : Container
    c = h.container

    body : List ℕ
    body = or_empty p.body

    n : ℕ
    n = payload_size library p body

    end : ℕ
    end = length c.text + n + length new_line

    same_length : length c.text ≡ length text
    same_length = ap length h.holds

    last : List ℕ
    last = new_line ++ take n body

    last_length : length last ≤ length new_line + n
    last_length = omega (arith, length-append new_line (take n body), length-take_le n body)

    enough : (a b n : ℕ) → a + b + 1 ≤ n → leb (a + b + 1) n ≡ true
    enough a b n h = ground arith

    large :
        leb c.buffer_size end ≡ true
        → length c.text + length last + 1 ≤ c.buffer_size + ((end + 1) - c.buffer_size)
    large e = omega (arith, last_length)

    not_small : (a b : ℕ) → leb a b ≡ false → b < a
    not_small a b e = ground arith

    small : leb c.buffer_size end ≡ false → length c.text + length last + 1 ≤ c.buffer_size
    small e = omega (arith, last_length, not_small c.buffer_size end e)

    settled :
        (leb c.buffer_size end ≡ true) ⊎ (leb c.buffer_size end ≡ false)
        → finish library (λ _. true) p (some c) ≡ serialized (text ++ last)
    settled (inl e) =
        rw
          (
            e,
            first_bytes-stored n p.body (payload_size-le library p body),
            e,
            print,
            enough (length c.text) (length last) (c.buffer_size + ((end + 1) - c.buffer_size))
                (large e),
            finish,
          )
          (ap (λ t. serialized (t ++ last)) h.holds)
    settled (inr e) =
        rw
          (
            e,
            first_bytes-stored n p.body (payload_size-le library p body),
            e,
            print,
            enough (length c.text) (length last) c.buffer_size (small e),
            finish,
          )
          (ap (λ t. serialized (t ++ last)) h.holds)

-- Where `%03u` prints three digits of a code below 1000, with every allocation given, and a value for every header,
-- a message is printed without a read behind the body, a write behind the buffer or the use of a null pointer,
-- whatever the sizes of its parts are: the start line, the line of each header in the dictionary's order, the
-- empty line, and as many bytes of the body as the content length announces, or all of them when it announces
-- more than there are.
pub serialize-header_lines :
    (library : Library)
    → ((code : ℕ) → code < 1000 → length (library.three_digits code) ≡ 3)
    → (p : Payload) → HaveValues (pre_order p.configuration.root)
    → serialize library true (λ _. true) p
      ≡ serialized (
          start_line library p
          ++ (header_lines (pre_order p.configuration.root)
              ++ (new_line ++ take (content_length library (λ _ _. true) p) (or_empty p.body))))
unfolding serialize foreach
serialize-header_lines library three p values =
    rw
      (
        foreach_pre_order-visit_all (serialize_header (λ _. true)) p.configuration.root
            (some first),
        sym (take-payload_size library p (or_empty p.body)),
        sym (
            append_assoc line lines
              (new_line ++ take (payload_size library p (or_empty p.body)) (or_empty p.body))),
      )
      (finish-lem library p (line ++ lines) _
        (visit_all-Holds (pre_order p.configuration.root) line (some first) values begun))
  where
    line : Text
    line = start_line library p

    lines : Text
    lines = header_lines (pre_order p.configuration.root)

    size : ℕ
    size = start_size library p

    first : Container
    first = record { text = take size line; buffer_size = size + 1 }

    same_size : length line ≡ size
    same_size = length-start_line library p three

    begun : Holds line (some first)
    begun = record {
      container = first;
      some_of = refl;
      holds = rw (sym same_size) (take_all line);
      room = omega (arith, same_size);
    }
