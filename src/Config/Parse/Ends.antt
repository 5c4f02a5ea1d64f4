-- ===== src/Config/Parse/Ends.antt =====
-- The parsers of values return, and take at least the token that they ask for.
use robsd.Base.{
  ==_iff, ℕ, zero, suc, ◌<◌, Bool, true, false, List, [], ◌∷◌, ◌++◌, Option, none, some, Bytes,
  length, ℤ, pos, Result, done, failed, out_of_fuel, ◌≡◌, ◌≢◌, ◌⊎◌, inl, inr, arith, refl, ◌==◌,
  Bool-cases, Option-cases, eqb_ℤ, if◌then◌else◌,
}
use robsd.Lexer.{Token, Lexer, lexer_eof, lexer_next, lexer_expect, lexer_peek, lexer_error}
use robsd.Lexer.Cursor.{IsNext, advance, next-IsNext, expect-IsNext}
use robsd.Lexer.Open.{
  IsOpen, Consumes, open-IsNext, advance-Consumes, expect-Consumes, if-Consumes, peek-IsOpen,
  Consumes-trans,
}
use robsd.Interpolate.{interpolate_str, interpolate_buffer, max_depth}
use robsd.Interpolate.Fuel.{interpolate-ne-out_of_fuel}
use robsd.Config.Value.{integer, string}
use robsd.Config.Token.{token_boolean, token_integer, token_string, token_lbrace, token_rbrace}
use robsd.Config.Lex.{Overflow}
use robsd.Config.State.{
  System, Config, Stat, no_stat, not_directory, is_directory, Glob, no_match, glob_error, paths,
  config_interpolate_lookup,
}
use robsd.Config.State.Keeps.{Keeps, Keeps-refl, Keeps-trans}
use robsd.Config.State.Stuck.{interpolate-Keeps}
use robsd.Config.Parse.{
  append_value, config_error, config_nop, config_fatal, FromTokens, Outcome, unchanged, expecting,
  config_parse_boolean, config_parse_string, config_parse_integer, glob_value, config_parse_glob,
  list_end, list_loop, config_parse_list, user_value, config_parse_user, first_of, units, no_unit,
  product, scaled, config_parse_timeout, directory_at, interpolated, directory_value,
  config_parse_directory,
}

-- The pointer stands at the token of type `lexer_eof`.
abbrev pub AtEof : List Token → Type 0
AtEof [] = ⊥
AtEof (t ∷ seen) = t.tk_type ≡ lexer_eof

abbrev pub Moves : Lexer → Lexer → Type 0
Moves lx lx' = Consumes lx lx' ⊎ AtEof lx'.lx_seen

-- What a parser gives: no end of the fuel, and a token taken, which is the last one only behind an
-- error.
abbrev pub Goes : Lexer → FromTokens → Type 0
Goes lx (done (append_value val), lx') = Consumes lx lx'
Goes lx (done config_nop, lx') = Consumes lx lx'
Goes lx (done config_error, lx') = Moves lx lx'
Goes lx (done config_fatal, lx') = Moves lx lx'
Goes lx (failed, lx') = Unit
Goes lx (out_of_fuel, lx') = ⊥

pub Moves-after : {lx lx' lx'' : Lexer} → Consumes lx lx' → Moves lx' lx'' → Moves lx lx''
Moves-after c (inl d) = inl (Consumes-trans c d)
Moves-after c (inr e) = inr e

pub Goes-after : {lx lx' : Lexer} (r : FromTokens) → Consumes lx lx' → Goes lx' r → Goes lx r
Goes-after (done (append_value val), lx'') c g = Consumes-trans c g
Goes-after (done config_nop, lx'') c g = Consumes-trans c g
Goes-after (done config_error, lx'') c g = Moves-after c g
Goes-after (done config_fatal, lx'') c g = Moves-after c g
Goes-after (failed, lx'') c g = tt
Goes-after (out_of_fuel, lx'') c g = g

-- A message does not move the lexer.
pub error-Consumes : {lx lx' : Lexer} → Consumes lx lx' → Consumes lx (lexer_error lx')
unfolding lexer_error
error-Consumes c = record {
  is_open = record { not_at_eof = c.is_open.not_at_eof; eof_ahead = c.is_open.eof_ahead };
  shorter = c.shorter;
}

pub error-Moves : {lx lx' : Lexer} → Moves lx lx' → Moves lx (lexer_error lx')
unfolding lexer_error
error-Moves (inl c) = inl (error-Consumes c)
error-Moves (inr e) = inr e

advance-Moves :
    (lx : Lexer) (t : Token) (ts : List Token)
    → IsOpen lx
    → IsNext lx t ts
    → Moves lx (advance lx t ts)
advance-Moves lx t ts h n = elim (Bool-cases (t.tk_type == lexer_eof)) [
  | inl e ↦ inr ((==_iff t.tk_type lexer_eof).0 e)
  | inr e ↦ inl (advance-Consumes lx t ts h n (ground arith))
]

next-Moves : (lx : Lexer) → IsOpen lx → Moves lx (lexer_next lx).1
next-Moves lx h =
    let (t, ts, n) = open-IsNext h in rw (next-IsNext lx t ts n) (advance-Moves lx t ts h n)

pub expect-Moves : (lx : Lexer) (type : ℕ) → IsOpen lx → Moves lx (lexer_expect lx type).1
expect-Moves lx type h =
    let (t, ts, n) = open-IsNext h in
    let m = advance-Moves lx t ts h n in
    elim (Bool-cases (t.tk_type == type)) [
      | inl e ↦ rw (expect-IsNext lx t ts type n, e) m
      | inr e ↦ rw (expect-IsNext lx t ts type n, e) (error-Moves m)
    ]

expecting-Goes :
    (lx : Lexer) (type : ℕ) (parse : Token → Lexer → FromTokens)
    → IsOpen lx
    → type ≢ lexer_eof
    → ((t : Token) (lx' : Lexer) → Consumes lx lx' → Goes lx (parse t lx'))
    → Goes lx (expecting lx type parse)
unfolding expecting
expecting-Goes lx type parse h ne hp = elim (Option-cases (lexer_expect lx type).0) [
  | inl e ↦ rw (expecting, e) (expect-Moves lx type h)
  | inr (t, e) ↦ rw (expecting, e) (hp t _ (expect-Consumes lx type t h ne e))
]

pub boolean-Goes : (lx : Lexer) → IsOpen lx → Goes lx (config_parse_boolean lx)
unfolding config_parse_boolean
boolean-Goes lx h =
    expecting-Goes lx token_boolean
      (λ t lx'.
        (done (append_value (integer (if eqb_ℤ t.tk_int (pos 0) then pos 0 else pos 1))), lx'))
      h (omega arith) (λ t lx' c. c)

pub string-Goes : (lx : Lexer) → IsOpen lx → Goes lx (config_parse_string lx)
unfolding config_parse_string
string-Goes lx h =
    expecting-Goes lx token_string (λ t lx'. (done (append_value (string t.tk_str)), lx')) h
      (omega arith) (λ t lx' c. c)

pub integer-Goes : (lx : Lexer) → IsOpen lx → Goes lx (config_parse_integer lx)
unfolding config_parse_integer
integer-Goes lx h =
    expecting-Goes lx token_integer (λ t lx'. (done (append_value (integer t.tk_int)), lx')) h
      (omega arith) (λ t lx' c. c)

glob_value-Goes : (lx lx' : Lexer) (g : Glob) → Consumes lx lx' → Goes lx (glob_value g lx')
unfolding glob_value
glob_value-Goes lx lx' no_match c = c
glob_value-Goes lx lx' glob_error c = inl (error-Consumes c)
glob_value-Goes lx lx' (paths strs) c = c

pub glob-Goes : (sys : System) (lx : Lexer) → IsOpen lx → Goes lx (config_parse_glob sys lx)
unfolding config_parse_glob
glob-Goes sys lx h =
    expecting-Goes lx token_string (λ t. glob_value (sys.glob t.tk_str)) h (omega arith)
      (λ t lx' c. glob_value-Goes lx lx' (sys.glob t.tk_str) c)

list_end-Goes :
    (strs : List Bytes) (lx : Lexer) (r : Option Token × Lexer)
    → Moves lx r.1
    → ((t : Token) → r.0 ≡ some t → Consumes lx r.1)
    → Goes lx (list_end strs r)
unfolding list_end
list_end-Goes strs lx (none, lx') m c = m
list_end-Goes strs lx (some t, lx') m c = c t refl

list_loop-Goes :
    (fuel : ℕ) (strs : List Bytes) (lx : Lexer)
    → length lx.lx_ahead < fuel
    → IsOpen lx
    → Goes lx (list_loop fuel strs lx)
unfolding list_loop
list_loop-Goes zero strs lx h o = absurd (omega arith)
list_loop-Goes (suc fuel) strs lx h o =
    let same = peek-IsOpen lx token_rbrace o in
    elim (Bool-cases (lexer_peek lx token_rbrace).0) [
      | inl e ↦
          rw (list_loop, e)
            (rw same (
              list_end-Goes strs lx _ (expect-Moves lx token_rbrace o)
                (λ t f. expect-Consumes lx token_rbrace t o (omega arith) f)))
      | inr e ↦ elim (Option-cases (lexer_expect lx token_string).0) [
        | inl f ↦ rw (list_loop, e) (rw same (rw f (rw same (expect-Moves lx token_string o))))
        | inr (t, f) ↦
            let lx1 = (lexer_expect lx token_string).1 in
            let c = expect-Consumes lx token_string t o (omega arith) f in
            rw (list_loop, e)
              (rw same (
                rw f (
                  rw same (
                    Goes-after (list_loop fuel (strs ++ t.tk_str ∷ []) lx1) c (
                      list_loop-Goes fuel (strs ++ t.tk_str ∷ []) lx1 (omega (arith, c.shorter))
                        c.is_open)))))
      ]
    ]

pub list-Goes : (lx : Lexer) → IsOpen lx → Goes lx (config_parse_list lx)
unfolding config_parse_list
list-Goes lx h =
    expecting-Goes lx token_lbrace (λ t lx'. list_loop (suc (length lx'.lx_ahead)) [] lx') h
      (omega arith)
      (λ t lx' c.
        Goes-after (list_loop (suc (length lx'.lx_ahead)) [] lx') c
          (list_loop-Goes (suc (length lx'.lx_ahead)) [] lx' (omega arith) c.is_open))

user_value-Goes :
    (sys : System) (lx : Lexer) (t : Token) (lx' : Lexer)
    → Consumes lx lx'
    → Goes lx (user_value sys t lx')
unfolding user_value
user_value-Goes sys lx t lx' c = elim (Bool-cases (sys.has_user t.tk_str)) [
  | inl e ↦ rw (user_value, e) c
  | inr e ↦ rw (user_value, e) (inl (error-Consumes c))
]

pub user-Goes : (sys : System) (lx : Lexer) → IsOpen lx → Goes lx (config_parse_user sys lx)
unfolding config_parse_user
user-Goes sys lx h =
    expecting-Goes lx token_string (user_value sys) h (omega arith) (user_value-Goes sys lx)

-- The types of a chain of `lexer_if` leave out the last token's.
abbrev pub NoEof : {A : Type 0} → List (ℕ × A) → Type 0
NoEof [] = Unit
NoEof ((type, a) ∷ types) = (type ≢ lexer_eof) × NoEof types

-- Either a token is consumed, or the lexer is as before.
pub first_of-Consumes :
    {A : Type 0} (types : List (ℕ × A)) (lx : Lexer)
    → NoEof types
    → IsOpen lx
    → (((a : A) × ((first_of types lx).0 ≡ some a)) × Consumes lx (first_of types lx).1)
      ⊎ (((first_of types lx).0 ≡ none) × ((first_of types lx).1 ≡ lx))
unfolding first_of
first_of-Consumes [] lx n h = inr (refl, refl)
first_of-Consumes ((type, a) ∷ types) lx (ne, n) h = elim (if-Consumes lx type h ne) [
  | inl ((t, e), c) ↦ inl (rw (first_of, e) ((a, refl), c))
  | inr (e, same) ↦ rw (first_of, e) (rw same (first_of-Consumes types lx n h))
]

no_unit-Goes : (lx : Lexer) (r : Option Token × Lexer) → Moves lx r.1 → Goes lx (no_unit r)
unfolding no_unit
no_unit-Goes lx (none, lx') m = m
no_unit-Goes lx (some t, lx') m = error-Moves m

product-Goes : (lx lx' : Lexer) (p : Bool × ℤ) → Consumes lx lx' → Goes lx (product p lx')
unfolding product
product-Goes lx lx' (true, v) c = inl (error-Consumes c)
product-Goes lx lx' (false, v) c = c

scaled-Goes :
    (o : Overflow) (v : ℤ) (lx : Lexer) → IsOpen lx → Goes lx (scaled o v (first_of units lx))
unfolding scaled
scaled-Goes o v lx h =
    elim (first_of-Consumes units lx (omega arith, (omega arith, (omega arith, tt))) h) [
      | inl ((scalar, e), c) ↦ rw (scaled, e) (product-Goes lx _ _ c)
      | inr (e, same) ↦ rw (scaled, e) (rw same (no_unit-Goes lx _ (next-Moves lx h)))
    ]

pub timeout-Goes : (o : Overflow) (lx : Lexer) → IsOpen lx → Goes lx (config_parse_timeout o lx)
unfolding config_parse_timeout
timeout-Goes o lx h =
    expecting-Goes lx token_integer (λ t lx'. scaled o t.tk_int (first_of units lx')) h
      (omega arith)
      (λ t lx' c.
        Goes-after (scaled o t.tk_int (first_of units lx')) c
          (scaled-Goes o t.tk_int lx' c.is_open))

-- The same, for a parser that changes the configuration: that keeps what no operation changes.
abbrev pub GoesOn : Config → Lexer → Outcome → Type 0
GoesOn cf lx (r, cf', lx') = Keeps cf cf' × Goes lx (r, lx')

pub GoesOn-after :
    (cf cf' : Config) (lx lx' : Lexer) (r : Outcome)
    → Keeps cf cf'
    → Consumes lx lx'
    → GoesOn cf' lx' r
    → GoesOn cf lx r
GoesOn-after cf cf' lx lx' (r, cf'', lx'') k c (l, g) =
    (Keeps-trans cf cf' cf'' k l, Goes-after (r, lx'') c g)

pub GoesOn-Keeps :
    (cf cf' : Config) (lx : Lexer) (r : Outcome) → Keeps cf cf' → GoesOn cf' lx r → GoesOn cf lx r
GoesOn-Keeps cf cf' lx (r, cf'', lx'') k (l, g) = (Keeps-trans cf cf' cf'' k l, g)

pub unchanged-GoesOn :
    (cf : Config) (lx : Lexer) (r : FromTokens) → Goes lx r → GoesOn cf lx (unchanged cf r)
unfolding unchanged
unchanged-GoesOn cf lx (r, lx') g = (Keeps-refl cf, g)

directory_at-Goes :
    (dir : Bytes) (st : Stat) (lx lx' : Lexer) → Consumes lx lx' → Goes lx (directory_at dir st lx')
unfolding directory_at
directory_at-Goes dir no_stat lx lx' c = inl (error-Consumes c)
directory_at-Goes dir not_directory lx lx' c = inl (error-Consumes c)
directory_at-Goes dir is_directory lx lx' c = c

interpolated-GoesOn :
    (sys : System) (dir : Bytes) (cf : Config) (lx lx' : Lexer) (r : Result Bytes × Config)
    → Keeps cf r.1
    → r.0 ≢ out_of_fuel
    → Consumes lx lx'
    → GoesOn cf lx (interpolated sys dir r lx')
unfolding interpolated unchanged
interpolated-GoesOn sys dir cf lx lx' (done path, cf') k ne c =
    (k, directory_at-Goes dir (sys.stat path) lx lx' c)
interpolated-GoesOn sys dir cf lx lx' (failed, cf') k ne c = (k, inl c)
interpolated-GoesOn sys dir cf lx lx' (out_of_fuel, cf') k ne c = absurd (ne refl)

directory_value-GoesOn :
    (sys : System) (cf : Config) (lx lx' : Lexer) (dir : Bytes)
    → Consumes lx lx'
    → GoesOn cf lx (directory_value sys cf dir lx')
unfolding directory_value interpolate_str interpolate_buffer
directory_value-GoesOn sys cf lx lx' [] c = (Keeps-refl cf, inl c)
directory_value-GoesOn sys cf lx lx' (b ∷ str) c =
    interpolated-GoesOn sys (b ∷ str) cf lx lx' _ (interpolate-Keeps sys false (b ∷ str) cf)
      (interpolate-ne-out_of_fuel (config_interpolate_lookup sys) false max_depth [] (b ∷ str) cf) c

pub directory-GoesOn :
    (sys : System) (cf : Config) (lx : Lexer)
    → IsOpen lx
    → GoesOn cf lx (config_parse_directory sys cf lx)
unfolding config_parse_directory
directory-GoesOn sys cf lx h = elim (Option-cases (lexer_expect lx token_string).0) [
  | inl e ↦ rw (config_parse_directory, e) (Keeps-refl cf, expect-Moves lx token_string h)
  | inr (t, e) ↦
      rw (config_parse_directory, e)
        (directory_value-GoesOn sys cf lx _ t.tk_str
          (expect-Consumes lx token_string t h (omega arith) e))
]
