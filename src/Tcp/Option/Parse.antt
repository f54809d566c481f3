-- ===== src/Tcp/Option/Parse.antt =====
-- `parse` ends on every input; where it reads past the end of the options.
use actor_network.Prelude.{
  Bool, List, Option-cases, [], arith, drop, false, get_elem?, if◌then◌else◌, inl, inr, length,
  length-append, length-drop, length-replicate, ltb, replicate, suc, true, zero, ℕ, ◌++◌, ◌<◌, ◌∷◌,
  ◌≡◌, ◌≢◌, ◌≤◌,
}
use actor_network.Tcp.Core.{BigEndian}
use actor_network.Tcp.Option.{
  OptionKind, Parsed, TcpOption, at, case_of, eol, is_single, kind_of, mss, nop, overread, parse,
  parse_loop, parsed, sack, timestamps, unfinished, unknown, win_scale, with_room,
}

parsed-ne : (o : TcpOption) → parsed o ≢ unfinished
parsed-ne o q = cc

overread-ne : overread ≢ unfinished
overread-ne q = cc

at-ne :
    (bytes : List ℕ) (i : ℕ) (k : ℕ → Parsed)
    → ((b : ℕ) → k b ≢ unfinished)
    → at bytes i k ≢ unfinished
at-ne bytes i k h = elim (Option-cases (get_elem? bytes i)) [
  | inl e ↦ rw (e, at) overread-ne
  | inr (b, e) ↦ rw (e, at) (h b)
]

if-ne :
    (b : Bool) (x y : Parsed) → x ≢ unfinished → y ≢ unfinished → (if b then x else y) ≢ unfinished
if-ne true x y h k = h
if-ne false x y h k = k

with_room-ne :
    (kind : OptionKind) (bytes : List ℕ) (o : TcpOption) (rest : Parsed)
    → rest ≢ unfinished
    → with_room kind bytes o rest ≢ unfinished
with_room-ne kind bytes o rest h =
    if-ne (is_single kind) _ _ h
      (at-ne bytes 1 _ (λ len. if-ne (ltb (length bytes) len) _ _ (parsed-ne o) h))

module _ (be : BigEndian) where
  case_of-ne :
      (kind : OptionKind) (bytes : List ℕ) (o : TcpOption) (loop : ℕ → TcpOption → Parsed)
      → ((n : ℕ) (o' : TcpOption) → 0 < n → loop n o' ≢ unfinished)
      → case_of be kind bytes o loop ≢ unfinished
  case_of-ne mss bytes o loop h =
      at-ne bytes 2 _ (λ hi. at-ne bytes 3 _ (λ lo. h 4 _ (omega arith)))
  case_of-ne win_scale bytes o loop h = at-ne bytes 2 _ (λ shift. h 3 _ (omega arith))
  case_of-ne sack bytes o loop h = h 2 _ (omega arith)
  case_of-ne nop bytes o loop h = h 1 _ (omega arith)
  case_of-ne eol bytes o loop h = parsed-ne o
  case_of-ne timestamps bytes o loop h = at-ne bytes 1 _ (λ len. ground (arith, h len o))
  case_of-ne (unknown k) bytes o loop h = at-ne bytes 1 _ (λ len. ground (arith, h len o))

  parse_loop-ne :
      (fuel : ℕ) (bytes : List ℕ) (o : TcpOption)
      → length bytes ≤ fuel
      → parse_loop be fuel bytes o ≢ unfinished
  unfolding parse_loop
  parse_loop-ne fuel [] o h = parsed-ne o
  parse_loop-ne zero (b ∷ bytes) o h = elim h [ ]
  parse_loop-ne (suc fuel) (b ∷ bytes) o h = with_room-ne (kind_of b) (b ∷ bytes) o _ (
      case_of-ne (kind_of b) (b ∷ bytes) o _ (λ n o' pos.
        parse_loop-ne fuel (drop n (b ∷ bytes)) o' (omega (arith, length-drop n (b ∷ bytes)))))

  -- `parse` returns, or reads past the end, on every input: each round moves on by a byte at least.
  pub parse-ne-unfinished : (bytes : List ℕ) (o : TcpOption) → parse be bytes o ≢ unfinished
  unfolding parse
  parse-ne-unfinished bytes o = parse_loop-ne (length bytes) bytes o (omega arith)

  nops-overread :
      (n k fuel : ℕ) (o : TcpOption)
      → 1 < k
      → n < fuel
      → parse_loop be fuel (replicate n 1 ++ k ∷ []) o ≡ overread
  unfolding parse_loop kind_of
  nops-overread n k zero o h lt = elim lt [ ]
  nops-overread zero k (suc fuel) o h lt = ground arith
  nops-overread (suc n) k (suc fuel) o h lt = nops-overread n k fuel o h (omega arith)

  -- Where a kind other than EOL and NOP is the last byte of the options, after any number of NOPs,
  -- `parse` reads the length behind it, past the end.
  pub parse_overread :
      (n k : ℕ) (o : TcpOption) → 1 < k → parse be (replicate n 1 ++ k ∷ []) o ≡ overread
  unfolding parse
  parse_overread n k o h =
      nops-overread n k (length (replicate n 1 ++ k ∷ [])) o h
        (omega (arith, length-append (replicate n 1) (k ∷ []), length-replicate n (one)))
    where
      one : ℕ
      one = 1
