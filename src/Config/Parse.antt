-- ===== src/Config/Parse.antt =====
-- The parsers of values, conf.c: from the tokens behind a keyword to a value, or an error.
--
-- `failed` stands for a failed assertion. A value that the C code has set behind the pointer `val`
-- when it returns an error is not kept, since no caller reads it.
pub mod Ends
use robsd.Base.{
  ℕ, zero, suc, Bool, true, false, List, [], ◌∷◌, ◌++◌, Option, none, some, ltb, ◌==◌,
  if◌then◌else◌, Bytes, codes, length, ℤ, pos, eqb_ℤ, Result, done, failed, out_of_fuel,
}
use robsd.Lexer.{Token, Lexer, lexer_next, lexer_expect, lexer_peek, lexer_if, lexer_error}
use robsd.Interpolate.{interpolate_str}
use robsd.Config.Value.{VariableValue, integer, string, list}
use robsd.Config.Token.{
  token_boolean, token_integer, token_string, token_lbrace, token_rbrace, token_hours,
  token_minutes, token_seconds,
}
use robsd.Config.Lex.{Overflow}
use robsd.Config.State.{
  System, Config, Stat, no_stat, not_directory, is_directory, Glob, no_match, glob_error, paths,
  config_interpolate_lookup,
}

-- CONFIG_APPEND, with the value, CONFIG_ERROR, CONFIG_NOP and CONFIG_FATAL.
pub data Parsed : Type 0 where
  append_value : VariableValue → Parsed
  config_error config_nop config_fatal : Parsed

-- What a parser gives that leaves the configuration alone, and what one gives that changes it.
abbrev pub FromTokens : Type 0
FromTokens = Result Parsed × Lexer

abbrev pub Outcome : Type 0
Outcome = Result Parsed × Config × Lexer

unfoldable pub unchanged : Config → FromTokens → Outcome
unchanged cf (r, lx) = (r, cf, lx)

-- A token of a type is taken and used, or the result is CONFIG_ERROR.
unfoldable pub expecting : Lexer → ℕ → (Token → Lexer → FromTokens) → FromTokens
expecting lx type parse =
    let r = lexer_expect lx type in
    elim r.0 [ none ↦ (done config_error, r.1) | some tk ↦ parse tk r.1 ]

unfoldable pub config_parse_boolean : Lexer → FromTokens
unfolding expecting
config_parse_boolean lx = expecting lx token_boolean (λ tk lx'.
    (done (append_value (integer (if eqb_ℤ tk.tk_int (pos 0) then pos 0 else pos 1))), lx'))

unfoldable pub config_parse_string : Lexer → FromTokens
unfolding expecting
config_parse_string lx =
    expecting lx token_string (λ tk lx'. (done (append_value (string tk.tk_str)), lx'))

unfoldable pub config_parse_integer : Lexer → FromTokens
unfolding expecting
config_parse_integer lx =
    expecting lx token_integer (λ tk lx'. (done (append_value (integer tk.tk_int)), lx'))

unfoldable pub glob_value : Glob → Lexer → FromTokens
glob_value no_match lx = (done config_nop, lx)
glob_value glob_error lx = (done config_fatal, lexer_error lx)
glob_value (paths strs) lx = (done (append_value (list strs)), lx)

unfoldable pub config_parse_glob : System → Lexer → FromTokens
unfolding expecting glob_value
config_parse_glob sys lx = expecting lx token_string (λ tk lx'. glob_value (sys.glob tk.tk_str) lx')

unfoldable pub list_end : List Bytes → Option Token × Lexer → FromTokens
list_end strs (none, lx) = (done config_fatal, lx)
list_end strs (some tk, lx) = (done (append_value (list strs)), lx)

-- The strings up to the closing brace, behind `strs`.
unfoldable pub list_loop : ℕ → List Bytes → Lexer → FromTokens
unfolding list_end
list_loop zero strs lx = (out_of_fuel, lx)
list_loop (suc fuel) strs lx =
    let p = lexer_peek lx token_rbrace in
    let r = lexer_expect p.1 token_string in
    elim p.0 [
      | true ↦ list_end strs (lexer_expect p.1 token_rbrace)
      | false ↦ elim r.0 [
        | none ↦ (done config_fatal, r.1)
        | some tk ↦ list_loop fuel (strs ++ tk.tk_str ∷ []) r.1
      ]
    ]

-- Each round but the last takes a token.
unfoldable pub config_parse_list : Lexer → FromTokens
unfolding expecting list_loop
config_parse_list lx =
    expecting lx token_lbrace (λ tk lx'. list_loop (suc (length lx'.lx_ahead)) [] lx')

unfoldable pub user_value : System → Token → Lexer → FromTokens
user_value sys tk lx =
    if sys.has_user tk.tk_str
    then (done (append_value (string tk.tk_str)), lx)
    else (done config_error, lexer_error lx)

unfoldable pub config_parse_user : System → Lexer → FromTokens
unfolding expecting user_value
config_parse_user sys lx = expecting lx token_string (user_value sys)

-- A chain of `lexer_if`: what belongs to the first type that the next token has.
unfoldable pub first_of : {A : Type 0} → List (ℕ × A) → Lexer → Option A × Lexer
first_of [] lx = (none, lx)
first_of ((type, a) ∷ types) lx =
    let r = lexer_if lx type in elim r.0 [ some tk ↦ (some a, r.1) | none ↦ first_of types r.1 ]

-- The units of a timeout, in seconds.
abbrev pub units : List (ℕ × ℕ)
units = (token_seconds, 1) ∷ (token_minutes, 60) ∷ (token_hours, 3600) ∷ []

no_unit : Option Token × Lexer → FromTokens
no_unit (none, lx) = (done config_error, lx)
no_unit (some tk, lx) = (done config_error, lexer_error lx)

unfoldable pub product : Bool × ℤ → Lexer → FromTokens
product (true, v) lx = (done config_error, lexer_error lx)
product (false, v) lx = (done (append_value (integer v)), lx)

unfoldable pub scaled : Overflow → ℤ → Option ℕ × Lexer → FromTokens
unfolding product no_unit
scaled o v (some scalar, lx) = product (o.i32_mul (pos scalar) v) lx
scaled o v (none, lx) = no_unit (lexer_next lx)

unfoldable pub config_parse_timeout : Overflow → Lexer → FromTokens
unfolding expecting scaled
config_parse_timeout o lx =
    expecting lx token_integer (λ tk lx'. scaled o tk.tk_int (first_of units lx'))

unfoldable pub directory_at : Bytes → Stat → Lexer → FromTokens
directory_at dir no_stat lx = (done config_error, lexer_error lx)
directory_at dir not_directory lx = (done config_error, lexer_error lx)
directory_at dir is_directory lx = (done (append_value (string dir)), lx)

unfoldable pub interpolated : System → Bytes → Result Bytes × Config → Lexer → Outcome
unfolding directory_at unchanged
interpolated sys dir (done path, cf) lx = unchanged cf (directory_at dir (sys.stat path) lx)
interpolated sys dir (failed, cf) lx = (done config_error, cf, lx)
interpolated sys dir (out_of_fuel, cf) lx = (out_of_fuel, cf, lx)

-- An empty string has been reported by the lexer.
unfoldable pub directory_value : System → Config → Bytes → Lexer → Outcome
unfolding interpolated
directory_value sys cf [] lx = (done config_error, cf, lx)
directory_value sys cf (c ∷ dir) lx =
    interpolated sys (c ∷ dir)
      (interpolate_str {S = Config} (config_interpolate_lookup sys) false (c ∷ dir) cf) lx

unfoldable pub config_parse_directory : System → Config → Lexer → Outcome
unfolding directory_value
config_parse_directory sys cf lx =
    let r = lexer_expect lx token_string in
    elim r.0 [
      | none ↦ (done config_error, cf, r.1)
      | some tk ↦ directory_value sys cf tk.tk_str r.1
    ]
