-- ===== src/Request/Body/Upload.antt =====
-- A body that arrives in pieces.
use meinheld.Base.{
  ℕ, ◌+◌, ◌≤◌, ◌<◌, ◌≡◌, refl, ap, ◌∙◌, ◌≢◌, ◌⊎◌, inl, inr, Bool, true, false, not, ◌&&◌, List, [],
  ◌∷◌, ◌++◌, append-nil, append_assoc, arith, ltb, leb, ◌==◌, Bool-cases, length, length-append,
  take_all,
}
use meinheld.Buffer.{limit_max, new_buffer}
use meinheld.Buffer.Append.{IsValid, write2buf_lem}
use meinheld.Request.{Request, none_type, RequestBody, no_body, in_memory, in_file}
use meinheld.Request.Body.{Limits, write_body2mem, append_body, write_body, open_body, body_cb}
use meinheld.Request.Headers.{for_pieces, total, joined_pieces}

-- The body holds the bytes `s`, in memory or in a file.
abbrev pub HoldsBody : RequestBody → List ℕ → Type 0
HoldsBody no_body s = ⊥
HoldsBody (in_memory b) s = IsValid b × (b.limit ≡ limit_max) × (b.bytes ≡ s)
HoldsBody (in_file f) s = f ≡ s

append_body-HoldsBody :
    (body : RequestBody) (s c : List ℕ)
    → HoldsBody body s
    → length s + length c ≤ limit_max
    → HoldsBody (append_body true body c) (s ++ c)
unfolding append_body write_body2mem
append_body-HoldsBody no_body s c h b = h
append_body-HoldsBody (in_file f) s c h b = ap (λ t. t ++ c) h
append_body-HoldsBody (in_memory m) s c h b =
    let n : length m.bytes ≡ length s = ap length h.2 in
    let w = write2buf_lem m c h.0 (omega (arith, n, h.0.counted)) in
    (
      w.valid,
      w.same_limit ∙ h.1,
      w.kept
          ∙ take_all m.limit (m.bytes ++ c) (omega (arith, n, h.1, length-append m.bytes c))
          ∙ ap (λ t. t ++ c) h.2,
    )

-- What the pieces of a body leave, after `s`.
abbrev pub BodyRead : Limits → List ℕ → List (List ℕ) → Bool × Request → Type 0
BodyRead limits s cs (ok, req) =
    (ok ≡ leb (length s + total cs) limits.max_content_length)
    × (ok ≡ true
        → HoldsBody req.body (s ++ joined_pieces cs) × (req.body_readed ≡ length s + total cs))
    × (ok ≡ false → req.bad_request_code ≡ 413)

new_buffer-limit : (n : ℕ) → (new_buffer n 0).limit ≡ limit_max
unfolding new_buffer
new_buffer-limit n = refl

new_buffer-default : (n : ℕ) → n ≤ limit_max → IsValid (new_buffer n 0)
unfolding new_buffer
new_buffer-default n h = record {
  allocated = refl;
  counted = refl;
  room = omega arith;
  capped = omega arith;
  bounded = omega arith;
}

module _ (limits : Limits) (small : limits.max_content_length ≤ limit_max) (chunked : Bool) where
  -- The body is open, and holds what was read.
  record Open (req : Request) (s : List ℕ) : Type 0 where
    opened : req.body_type ≢ none_type
    holds : HoldsBody req.body s
    counted : req.body_readed ≡ length s

  open_body_again :
      (req : Request) → req.body_type ≢ none_type → open_body limits chunked req ≡ (true, req)
  unfolding open_body
  open_body_again req h = ground arith

  Open-piece :
      (req : Request) (s c : List ℕ)
      → Open req s
      → length s + length c ≤ limits.max_content_length
      → (body_cb limits true chunked req c ≡ (true, write_body true req c))
        × Open (write_body true req c) (s ++ c)
  unfolding body_cb write_body
  Open-piece req s c o b = (
    rw (open_body_again req o.opened) (ground (arith, o.counted)),
    record {
      opened = o.opened;
      holds = append_body-HoldsBody req.body s c o.holds (omega arith);
      counted = omega (arith, o.counted, length-append s c);
    },
  )

  refused_piece :
      (req : Request) (c : List ℕ)
      → limits.max_content_length < req.body_readed + length c
      → body_cb limits true chunked req c ≡ (false, record req { bad_request_code = 413 })
  unfolding body_cb
  refused_piece req c b = ground arith

  body_pieces_from :
      (cs : List (List ℕ)) (req : Request) (s : List ℕ)
      → Open req s
      → length s ≤ limits.max_content_length
      → BodyRead limits s cs (for_pieces (body_cb limits true chunked) req cs)
  unfolding for_pieces
  body_pieces_from [] req s o l =
      (ground arith, (λ _. (rw (append-nil s) o.holds, omega (arith, o.counted))), λ e. cc)
  body_pieces_from (c ∷ cs) req s o l =
      elim (Bool-cases (leb (length s + length c) limits.max_content_length)) [
        | inl fits ↦
            let step = Open-piece req s c o (ground arith) in
            let n = length-append s c in
            let r =
              body_pieces_from cs (write_body true req c) (s ++ c) step.1 (ground (arith, n)) in
            rw step.0 (
              ground (arith, r.0, n),
              (λ e. (rw append_assoc at ((r.1 e).0), omega (arith, (r.1 e).1, n))),
              r.2,
            )
        | inr over ↦
            rw (refused_piece req c (ground (arith, o.counted)))
              (ground arith, (λ e. cc), λ _. refl)
      ]

  Open-first :
      (req : Request)
      → req.body_type ≡ none_type
      → req.body_readed ≡ 0
      → (0 < req.body_length) ⊎ (chunked ≡ true)
      → req.body_length ≤ limit_max
      → ((open_body limits chunked req).0 ≡ true) × Open (open_body limits chunked req).1 []
  unfolding open_body new_buffer
  Open-first req t z sized small_length =
      let has_length : ((req.body_length == 0) && not chunked) ≡ false = ground arith in
      rw (t, has_length)
        (elim (Bool-cases (ltb limits.client_body_buffer_size req.body_length)) [
          | inl large ↦ rw large (refl, record { opened = λ e. cc; holds = refl; counted = z })
          | inr little ↦ rw little (
            refl,
            record {
              opened = λ e. cc;
              holds = (
                new_buffer-default req.body_length small_length,
                new_buffer-limit req.body_length,
                refl,
              );
              counted = z;
            },
          )
        ])

  -- A body whose length is given or which is chunked is accepted exactly if its pieces have at most
  -- `max_content_length` bytes together; then all its bytes are held, in memory or in a file, and
  -- counted; otherwise it is refused with code 413. The limit and the length are at most 2^30, and
  -- there is memory.
  pub body_pieces :
      (req : Request) (c : List ℕ) (cs : List (List ℕ))
      → req.body_type ≡ none_type
      → req.body_readed ≡ 0
      → (0 < req.body_length) ⊎ (chunked ≡ true)
      → req.body_length ≤ limit_max
      → BodyRead limits [] (c ∷ cs) (for_pieces (body_cb limits true chunked) req (c ∷ cs))
  unfolding for_pieces body_cb
  body_pieces req c cs t z sized small_length =
      let first = Open-first req t z sized small_length in
      elim (Bool-cases (ltb limits.max_content_length (req.body_readed + length c))) [
        | inl over ↦ rw over (ground arith, (λ e. cc), λ _. refl)
        | inr fits ↦
            let step = Open-piece (open_body limits chunked req).1 [] c first.1 (ground arith) in
            let r = body_pieces_from cs _ c step.1 (ground arith) in
            rw (fits, first.0)
              (ground (arith, r.0), (λ e. ((r.1 e).0, omega (arith, (r.1 e).1))), r.2)
      ]
