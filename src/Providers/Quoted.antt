-- ===== src/Providers/Quoted.antt =====
-- Writing a .env file and reading it back.
use fastconf.Base.{
  trim_text, ℕ, suc, ◌≤◌, ◌≡◌, refl, ap, ◌∙◌, ◌≢◌, Bool, true, false, not, ◌&&◌, some, List, [],
  ◌∷◌, ◌++◌, map, arith, ◌==◌, length, All, ok, ◌>>=◌, Text, codes, trim_prefix, cut, join, lacks,
  split-join,
}
use mathlib.Core.List.{append_assoc}
use fastconf.Providers.Dotenv.{
  keyed_value, EnvPair, double_quoted, parse_value, parse_trimmed, parse_line, parse_lines,
  parse_dotenv, drop_return, max_line, keyed_line,
}
use fastconf.Providers.Escapes.{
  IsKey, escape, escape_byte, double_quoted-escape, every, every-append, is_key_byte, trim_text-key,
  trim_text-quoted, drop_return-quoted, has_prefix-key, cut-key, ltb-false,
}

-- KEY="value"
abbrev pub write_pair : EnvPair → Text
write_pair e = e.key ++ (b'=' ∷ b'"' ∷ (escape e.value ++ (b'"' ∷ [])))

parse_line-trimmed : (line : Text) → trim_text line ≡ line → parse_line line ≡ parse_trimmed line
unfolding parse_line
parse_line-trimmed line h = ap parse_trimmed h

parse_trimmed-keyed :
    (c : ℕ) (s : Text)
    → (c == b'#') ≡ false
    → trim_prefix (c ∷ s) (codes "export ") ≡ c ∷ s
    → trim_text (c ∷ s) ≡ c ∷ s
    → parse_trimmed (c ∷ s) ≡ keyed_line (cut b'=' (c ∷ s))
unfolding parse_trimmed
parse_trimmed-keyed c s h p t = rw h (ap (λ x. keyed_line (cut b'=' x)) (ap trim_text p ∙ t))

keyed_line-key :
    (before raw : Text) (c : ℕ) (k : Text)
    → trim_text before ≡ c ∷ k
    → keyed_line (some (before, raw)) ≡ keyed_value (c ∷ k) (parse_value raw)
keyed_line-key before raw c k h = rw (h, keyed_line) refl

parse_value-quoted : (t : Text) → parse_value (b'"' ∷ t) ≡ double_quoted false t
unfolding parse_value
parse_value-quoted t = refl

keyed_line-pair :
    (c : ℕ) (k v : Text)
    → every is_key_byte (c ∷ k) ≡ true
    → keyed_line (some (c ∷ k, b'"' ∷ (escape v ++ (b'"' ∷ []))))
      ≡ ok (some (record { key = c ∷ k; value = v }))
keyed_line-pair c k v h =
    keyed_line-key (c ∷ k) _ c k (trim_text-key (c ∷ k) h)
    ∙ ap (keyed_value (c ∷ k)) (parse_value-quoted _ ∙ double_quoted-escape v [])

trim_prefix-key :
    (c : ℕ) (k rest : Text)
    → every is_key_byte (c ∷ k) ≡ true
    → trim_prefix (c ∷ (k ++ (b'=' ∷ rest))) (codes "export ") ≡ c ∷ (k ++ (b'=' ∷ rest))
unfolding trim_prefix
trim_prefix-key c k rest h = rw (has_prefix-key (codes "export ") (c ∷ k) rest h refl refl) refl

parse_line-pair :
    (c : ℕ) (k v : Text)
    → every is_key_byte (c ∷ k) ≡ true
    → parse_line (drop_return (write_pair (record { key = c ∷ k; value = v })))
      ≡ ok (some (record { key = c ∷ k; value = v }))
parse_line-pair c k v h =
    let body = k ++ (b'=' ∷ b'"' ∷ escape v) in
    let line = k ++ (b'=' ∷ b'"' ∷ (escape v ++ (b'"' ∷ []))) in
    let same : body ++ (b'"' ∷ []) ≡ line = append_assoc k (b'=' ∷ b'"' ∷ escape v) (b'"' ∷ []) in
    let trimmed : trim_text (c ∷ line) ≡ c ∷ line =
      rw same at (trim_text-quoted c body (ground arith)) in
    let kept : drop_return (c ∷ line) ≡ c ∷ line = rw same at (drop_return-quoted c body) in
    rw kept (
      parse_line-trimmed (c ∷ line) trimmed
      ∙ (parse_trimmed-keyed c line (ground arith) (trim_prefix-key c k _ h) trimmed
          ∙ (ap keyed_line (cut-key (c ∷ k) _ h) ∙ keyed_line-pair c k v h)))

every-lacks : (c : ℕ) (s : Text) → (every (λ x. not (x == c)) s) ≡ lacks c s
every-lacks c [] = refl
every-lacks c (x ∷ s) = ap (λ b. not (x == c) && b) (every-lacks c s)

every_weaken :
    (p q : ℕ → Bool) (s : Text)
    → ((c : ℕ) → p c ≡ true → q c ≡ true)
    → every p s ≡ true
    → every q s ≡ true
every_weaken p q [] f h = refl
every_weaken p q (c ∷ s) f h = ground (arith, f c, every_weaken p q s f)

abbrev not_newline : ℕ → Bool
not_newline c = not (c == 10)

escape-one_line : (v : Text) → every not_newline (escape v) ≡ true
unfolding escape
escape-one_line [] = refl
escape-one_line (c ∷ v) =
    every-append not_newline (escape_byte c) (escape v) (ground arith) (escape-one_line v)

write_pair-one_line :
    (e : EnvPair) → every is_key_byte e.key ≡ true → lacks 10 (write_pair e) ≡ true
write_pair-one_line e h = rw (← every-lacks 10 (write_pair e)) (
    every-append not_newline e.key _
      (every_weaken is_key_byte not_newline e.key (λ c k. ground arith) h)
      (every-append not_newline (escape e.value) (b'"' ∷ []) (escape-one_line e.value) refl))

key-parse_line :
    (k v : Text)
    → IsKey k
    → parse_line (drop_return (write_pair (record { key = k; value = v })))
      ≡ ok (some (record { key = k; value = v }))
key-parse_line [] v h = absurd (h.0 refl)
key-parse_line (c ∷ k) v h = parse_line-pair c k v h.1

parse_lines-cons :
    (n : ℕ) (line : Text) (lines : List Text) (e : EnvPair)
    → line ≢ []
    → length line ≤ max_line
    → parse_line (drop_return line) ≡ ok (some e)
    → parse_lines n (line ∷ lines) ≡ (parse_lines (suc n) lines >>= λ rest. ok (e ∷ rest))
unfolding parse_lines
parse_lines-cons n [] lines e z w h = absurd (z refl)
parse_lines-cons n (c ∷ s) [] e z w h = rw (ltb-false max_line (length (c ∷ s)) w, h) refl
parse_lines-cons n (c ∷ s) (l ∷ lines) e z w h = rw (ltb-false max_line (length (c ∷ s)) w, h) refl

write_pair-ne : (k v : Text) → k ≢ [] → write_pair (record { key = k; value = v }) ≢ []
write_pair-ne [] v h = absurd (h refl)
write_pair-ne (c ∷ k) v h = λ x. cc

-- A pair that fits on a line.
abbrev pub IsWritable : EnvPair → Type 0
IsWritable e = IsKey e.key × (length (write_pair e) ≤ max_line)

parse_lines-write :
    (n : ℕ) (es : List EnvPair) → All IsWritable es → parse_lines n (map write_pair es) ≡ ok es
parse_lines-write n [] h = unfold parse_lines in refl
parse_lines-write n (e ∷ es) h =
    parse_lines-cons n (write_pair e) (map write_pair es) e (write_pair-ne e.key e.value h.0.0.0)
      h.0.1 (key-parse_line e.key e.value h.0.0)
    ∙ rw (parse_lines-write (suc n) es h.1) refl

All-one_line :
    (es : List EnvPair) → All IsWritable es → All (λ l. lacks 10 l ≡ true) (map write_pair es)
All-one_line [] h = tt
All-one_line (e ∷ es) h = (write_pair-one_line e h.0.0.1, All-one_line es h.1)

-- Pairs with keys of ASCII bytes that are not white space, `=` or `#`, and with any values, written one
-- KEY="value" to a line, with newlines, tabs, quotes and backslashes escaped: parseDotEnv gives them
-- back, in their order, if no line is longer than the scanner takes.
pub parse_dotenv-write :
    (es : List EnvPair) → All IsWritable es → parse_dotenv (join 10 (map write_pair es)) ≡ ok es
unfolding parse_dotenv
parse_dotenv-write [] h = unfold join in refl
parse_dotenv-write (e ∷ es) h =
    let lines = All-one_line (e ∷ es) h in
    ap (parse_lines 0) (split-join 10 (write_pair e) (map write_pair es) lines.0 lines.1)
    ∙ parse_lines-write 0 (e ∷ es) h
