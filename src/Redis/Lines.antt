-- ===== src/Redis/Lines.antt =====
-- The lines of query_server/src/redis_wire_protocol.rs: what `read_line` takes from the stream.
use powdrr_engine.Common.{
  ℕ, ◌≡◌, ◌≢◌, ◌↔◌, refl, sym, ◌∙◌, ap, Bool, true, false, ◌&&◌, Option, none, some, List, [], ◌∷◌,
  ◌++◌, if◌then◌else◌, ◌==◌, nat_eq, arith, contains, option_map, Bool-cases, inl, inr,
}
use powdrr_engine.Redis.Text.{valid_utf8}
use powdrr_engine.Redis.Wire.{crlf, ok, read_until, strip_crlf, read_line, line_of}
use powdrr_engine.Redis.Framing.{append_assoc, read_line-append}

read_until_lem : (stream : List ℕ) → (read_until stream).0 ++ (read_until stream).1 ≡ stream
unfolding read_until
read_until_lem [] = refl
read_until_lem (b ∷ bs) = elim (Bool-cases (b == 10)) [
  | inl e ↦ rw (read_until, e) refl
  | inr e ↦ rw (read_until, e) (ap (λ xs. b ∷ xs) (read_until_lem bs))
]

strip_crlf-pair :
    (a b : ℕ) (t : Bool) (line : List ℕ)
    → (if t then some [] else none) ≡ some line
    → (t ≡ true → (a ≡ 13) × (b ≡ 10))
    → a ∷ b ∷ [] ≡ line ++ crlf
strip_crlf-pair a b true [] h f = rw ((f refl).0, (f refl).1) refl
strip_crlf-pair a b true (x ∷ line) h f = cc
strip_crlf-pair a b false line h f = cc

strip_crlf-step :
    (a : ℕ) (bs line : List ℕ) (o : Option (List ℕ))
    → option_map (λ l. a ∷ l) o ≡ some line
    → ((l : List ℕ) → o ≡ some l → bs ≡ l ++ crlf)
    → a ∷ bs ≡ line ++ crlf
strip_crlf-step a bs line none h f = cc
strip_crlf-step a bs [] (some l) h f = cc
strip_crlf-step a bs (x ∷ line) (some l) h f = rw (f l refl) cc

strip_crlf_lem : (bs line : List ℕ) → strip_crlf bs ≡ some line → bs ≡ line ++ crlf
unfolding strip_crlf
strip_crlf_lem [] line h = cc
strip_crlf_lem (a ∷ []) line h = cc
strip_crlf_lem (a ∷ b ∷ []) line h =
    strip_crlf-pair a b (a == 13 && b == 10) line h (λ t. ground (arith, t))
strip_crlf_lem (a ∷ b ∷ c ∷ bs) line h =
    strip_crlf-step a (b ∷ c ∷ bs) line (strip_crlf (b ∷ c ∷ bs)) h (strip_crlf_lem (b ∷ c ∷ bs))

cons_eq : (b x : ℕ) (bs xs : List ℕ) → b ∷ bs ≡ x ∷ xs → (b ≡ x) × (bs ≡ xs)
cons_eq b x bs xs h = (cc, cc)

crlf-nonempty : (line : List ℕ) → [] ≢ line ++ crlf
crlf-nonempty [] = λ e. cc
crlf-nonempty (x ∷ line) = λ e. cc

read_until-head :
    (b : ℕ) (bs : List ℕ)
    → (read_until (b ∷ bs)).0 ≡ (if b == 10 then b ∷ [] else b ∷ (read_until bs).0)
unfolding read_until
read_until-head b bs = elim (Bool-cases (b == 10)) [
  | inl e ↦ rw (read_until, e) refl
  | inr e ↦ rw (read_until, e) refl
]

no_line_feed-cons :
    (b x : ℕ) (bs line : List ℕ) (t : Bool)
    → (b == 10) ≡ t
    → (if t then b ∷ [] else b ∷ bs) ≡ x ∷ (line ++ crlf)
    → (bs ≡ line ++ crlf → contains line 10 ≡ false)
    → contains (x ∷ line) 10 ≡ false
no_line_feed-cons b x bs line true e g f =
    absurd (crlf-nonempty line (cons_eq b x [] (line ++ crlf) g).1)
no_line_feed-cons b x bs line false e g f = ground (arith, cons_eq b x bs (line ++ crlf) g)

read_until-no_line_feed :
    (stream line : List ℕ) → (read_until stream).0 ≡ line ++ crlf → contains line 10 ≡ false
unfolding read_until
read_until-no_line_feed stream [] h = refl
read_until-no_line_feed [] (x ∷ line) h = absurd (crlf-nonempty (x ∷ line) h)
read_until-no_line_feed (b ∷ bs) (x ∷ line) h =
    no_line_feed-cons b x (read_until bs).0 line (b == 10) refl (sym (read_until-head b bs) ∙ h)
      (read_until-no_line_feed bs line)

line_of-some :
    (read rest line stream : List ℕ)
    → line_of read rest ≡ ok (some line) stream
    → (strip_crlf read ≡ some line) × (valid_utf8 line ≡ true) × (rest ≡ stream)
line_of-some [] rest line stream h = cc
line_of-some (b ∷ bs) rest line stream h = ground (arith, h)

-- A line is read just where the stream begins with that line and CRLF, the line is UTF-8 and has no
-- line feed, and the stream goes on with what stands after the CRLF.
pub read_line_lem :
    (stream line rest : List ℕ)
    → (read_line stream ≡ ok (some line) rest)
      ↔ ((stream ≡ line ++ (crlf ++ rest)) × (valid_utf8 line ≡ true) × (contains line 10 ≡ false))
unfolding read_line
read_line_lem stream line rest = (
  (λ h.
      let (stripped, valid, rest_eq) =
        line_of-some (read_until stream).0 (read_until stream).1 line rest h in
      let read = strip_crlf_lem (read_until stream).0 line stripped in
      (
        sym (read_until_lem stream) ∙ rw (read, rest_eq) (append_assoc line crlf rest),
        valid,
        read_until-no_line_feed stream line read,
      )),
  (λ h. rw (h.0) (read_line-append line rest h.2 h.1)),
)
