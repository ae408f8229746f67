-- ===== src/Wrapper/Message.antt =====
-- wrapper/dns_message.py and wrapper/dns_parse.py. A message is a list of bytes.
use fanxiangdiguijiexi.Prelude.{
  All, sym, ap, ◌∙◌, subst, append-nil, append_assoc, length-append, ℕ, zero, suc, ◌+◌, ◌*◌, ◌%◌,
  ◌≤◌, ◌<◌, ◌≡◌, refl, true, false, List, [], ◌∷◌, ◌++◌, map, arith, ltb, ◌==◌, if◌then◌else◌,
  length, take, drop, get_or, length-drop, Text, codes, decimal,
}

-- The flags: QR, the query's RD, RA, and SERVFAIL as the code.
unfoldable pub make_servfail : List ℕ → List ℕ
make_servfail query =
    if ltb (length query) 12
    then []
    else take 2 query
      ++ ((128 + get_or query 2 0 % 2) ∷ 130 ∷ [])
      ++ take 2 (drop 4 query)
      ++ (0 ∷ 0 ∷ 0 ∷ 0 ∷ 0 ∷ 0 ∷ [])
      ++ drop 12 query

-- `QTYPE_NAMES.get(qtype, str(qtype))`
unfoldable pub qtype_name : ℕ → Text
qtype_name n =
    if n == 1
    then codes "A"
    else if n == 2
    then codes "NS"
    else if n == 5
    then codes "CNAME"
    else if n == 6
    then codes "SOA"
    else if n == 12
    then codes "PTR"
    else if n == 15
    then codes "MX"
    else if n == 16
    then codes "TXT"
    else if n == 28
    then codes "AAAA"
    else if n == 33
    then codes "SRV"
    else if n == 65
    then codes "HTTPS"
    else decimal n

-- `decode("ascii", errors="replace")`
abbrev ascii : ℕ → ℕ
ascii b = if ltb b 128 then b else 65533

-- `".".join(labels)`
unfoldable pub dotted : List Text → Text
dotted [] = []
dotted (t ∷ []) = t
dotted (t ∷ u ∷ rest) = t ++ b'.' ∷ dotted (u ∷ rest)

abbrev question_end : List ℕ → List Text → Text × Text
question_end (a ∷ b ∷ c ∷ d ∷ rest) labels = (dotted labels, qtype_name (a * 256 + b))
question_end _ labels = (dotted labels, codes "UNKNOWN")

-- The loop over the labels, on what is left of the message. Each round takes a byte or more, so
-- that the message's length is fuel enough.
unfoldable pub labels_loop : ℕ → List ℕ → List Text → Text × Text
labels_loop zero rest labels = question_end rest labels
labels_loop (suc n) [] labels = question_end [] labels
labels_loop (suc n) (size ∷ rest) labels =
    let go_on = labels_loop n (drop size rest) (labels ++ map ascii (take size rest) ∷ []) in
    if size == 0
    then question_end rest labels
    else if ltb 63 size
    then ([], codes "COMPRESSED_UNSUPPORTED")
    else go_on

unfoldable pub parse_question : List ℕ → Text × Text
unfolding labels_loop
parse_question query =
    if ltb (length query) 12
    then ([], codes "UNKNOWN")
    else labels_loop (length query) (drop 12 query) []

-- How a question writes its labels: each after its length, and the root label last.
unfoldable pub encode_labels : List Text → List ℕ
encode_labels [] = 0 ∷ []
encode_labels (t ∷ rest) = length t ∷ t ++ encode_labels rest

-- Each label after a dot.
unfoldable pub after_dots : List Text → Text
after_dots [] = []
after_dots (t ∷ rest) = b'.' ∷ t ++ after_dots rest

dotted-after_dots : (labels : List Text) → dotted labels ≡ drop 1 (after_dots labels)
unfolding dotted after_dots
dotted-after_dots [] = refl
dotted-after_dots (t ∷ []) = sym (append-nil t)
dotted-after_dots (t ∷ u ∷ rest) = ap (λ v. t ++ b'.' ∷ v) (dotted-after_dots (u ∷ rest))

-- A label of 1 to 63 ASCII characters.
abbrev pub IsLabel : Text → Type 0
IsLabel t = (0 < length t) × (length t ≤ 63) × All (λ b. b < 128) t

take-append : (t rest : List ℕ) → take (length t) (t ++ rest) ≡ t
take-append [] rest = refl
take-append (b ∷ t) rest = ap (λ u. b ∷ u) (take-append t rest)

drop-append : (t rest : List ℕ) → drop (length t) (t ++ rest) ≡ rest
drop-append [] rest = refl
drop-append (b ∷ t) rest = drop-append t rest

map-ascii : (t : Text) → All (λ b. b < 128) t → map ascii t ≡ t
map-ascii [] h = refl
map-ascii (b ∷ t) (h, hs) =
    let e : ltb b 128 ≡ true = ground (arith, h) in rw e (ap (λ u. b ∷ u) (map-ascii t hs))

labels_loop-encode_labels :
    (n : ℕ) (labels acc : List Text) (a b c d : ℕ) (rest : List ℕ)
    → length labels < n
    → All IsLabel labels
    → labels_loop n (encode_labels labels ++ a ∷ b ∷ c ∷ d ∷ rest) acc
      ≡ (dotted (acc ++ labels), qtype_name (a * 256 + b))
unfolding labels_loop encode_labels
labels_loop-encode_labels zero labels acc a b c d rest h all = absurd (omega (arith, h))
labels_loop-encode_labels (suc n) [] acc a b c d rest h all = rw (append-nil acc) refl
labels_loop-encode_labels (suc n) (t ∷ labels) acc a b c d rest h
      ((some_bytes, short, plain), all) =
    let after = a ∷ b ∷ c ∷ d ∷ rest in
    let not_root : (length t == 0) ≡ false = ground (arith, some_bytes) in
    let not_pointer : ltb 63 (length t) ≡ false = ground (arith, short) in
    let next =
      labels_loop-encode_labels n labels (acc ++ t ∷ []) a b c d rest (omega (arith, h)) all in
    rw (
      not_root,
      not_pointer,
      append_assoc t (encode_labels labels) after,
      take-append t (encode_labels labels ++ after),
      drop-append t (encode_labels labels ++ after),
      map-ascii t plain,
      next,
      append_assoc acc (t ∷ []) labels,
    )

length-encode_labels : (labels : List Text) → length labels < length (encode_labels labels)
unfolding encode_labels
length-encode_labels [] = omega arith
length-encode_labels (t ∷ rest) =
    omega (arith, length-append t (encode_labels rest), length-encode_labels rest)

drop-header : (header rest : List ℕ) → length header ≡ 12 → drop 12 (header ++ rest) ≡ rest
drop-header header rest h = subst (λ n. drop n (header ++ rest) ≡ rest) h (drop-append header rest)

parse_question-long :
    (query : List ℕ)
    → 12 ≤ length query
    → parse_question query ≡ labels_loop (length query) (drop 12 query) []
unfolding parse_question
parse_question-long query h = let e : ltb (length query) 12 ≡ false = ground (arith, h) in rw e refl

-- A message that has a header of 12 bytes and then a question, written as labels of 1 to 63 ASCII
-- characters with their lengths, the root label, a type of two bytes and a class of two bytes, is
-- parsed to the labels, joined by dots, and the name of the type, whatever follows.
pub parse_question-encode_labels :
    (header : List ℕ) (labels : List Text) (a b c d : ℕ) (rest : List ℕ)
    → length header ≡ 12
    → All IsLabel labels
    → parse_question (header ++ (encode_labels labels ++ a ∷ b ∷ c ∷ d ∷ rest))
      ≡ (drop 1 (after_dots labels), qtype_name (a * 256 + b))
parse_question-encode_labels header labels a b c d rest h all =
    let question = encode_labels labels ++ a ∷ b ∷ c ∷ d ∷ rest in
    let size = length-append header question in
    let size' = length-append (encode_labels labels) (a ∷ b ∷ c ∷ d ∷ rest) in
    parse_question-long (header ++ question) (omega (arith, size, h))
    ∙ ap (λ m. labels_loop (length (header ++ question)) m []) (drop-header header question h)
    ∙ labels_loop-encode_labels (length (header ++ question)) labels [] a b c d rest
        (omega (arith, size, size', length-encode_labels labels)) all
    ∙ ap (λ t. (t, qtype_name (a * 256 + b))) (dotted-after_dots labels)

servfail_header :
    (query : List ℕ)
    → 12 ≤ length query
    → (length (make_servfail query) ≡ length query)
      × (take 2 (make_servfail query) ≡ take 2 query)
      × (drop 2 (take 4 (make_servfail query)) ≡ (128 + get_or query 2 0 % 2) ∷ 130 ∷ [])
      × (drop 12 (make_servfail query) ≡ drop 12 query)
unfolding make_servfail
servfail_header [] long = absurd (omega (arith, long))
servfail_header (a ∷ []) long = absurd (omega (arith, long))
servfail_header (a ∷ b ∷ []) long = absurd (omega (arith, long))
servfail_header (a ∷ b ∷ c ∷ []) long = absurd (omega (arith, long))
servfail_header (a ∷ b ∷ c ∷ d ∷ []) long = absurd (omega (arith, long))
servfail_header (a ∷ b ∷ c ∷ d ∷ e ∷ []) long = absurd (omega (arith, long))
servfail_header (a ∷ b ∷ c ∷ d ∷ e ∷ f ∷ rest) long =
    let enough : ltb (length (a ∷ b ∷ c ∷ d ∷ e ∷ f ∷ rest)) 12 ≡ false = ground (arith, long) in
    rw enough (omega (arith, long, length-drop 6 rest), refl, refl, refl)

-- A SERVFAIL for a message with a header has the message's length, transaction id and question, and
-- its flags are QR, the message's RD, RA and the code SERVFAIL; for a shorter message it is empty.
pub make_servfail-shape :
    (query : List ℕ)
    → (length query < 12 → make_servfail query ≡ [])
      × (12 ≤ length query
          → (length (make_servfail query) ≡ length query)
            × (take 2 (make_servfail query) ≡ take 2 query)
            × (drop 2 (take 4 (make_servfail query)) ≡ (128 + get_or query 2 0 % 2) ∷ 130 ∷ [])
            × (drop 12 (make_servfail query) ≡ drop 12 query))
unfolding make_servfail
make_servfail-shape query = (
  (λ short. let b : ltb (length query) 12 ≡ true = ground (arith, short) in rw b refl),
  (λ long. servfail_header query long),
)
