-- ===== src/Worker/Runner/Literal.antt =====
-- The input of an execution inside the Python text that the runner builds.
use Prim.Native.Char.{Char, code}
use text.Mathlib.TextLemmas.{nil-append, cons-append}
use mathlib.Core.Bool.{false≢true}
use serverust_less.Prelude.{
  ℕ, zero, suc, ◌≡◌, refl, sym, subst, ap, ◌∙◌, Bool, true, false, not, ◌&&◌, String, Option, none,
  some, nat_eq, str_append, if◌then◌else◌, arith, Bool-cases, inl, inr,
}
use serverust_less.Model.Text.{starts_with, replace_from}
use serverust_less.Worker.Runner.{escape_input, full_code}

-- What is left of a Python text after the literal in triple quotes that it is inside of: `quotes`
-- counts the quotes just read, and a character after a backslash is none that counts.
unfoldable pub after_literal : ℕ → Bool → String → Option String
after_literal quotes escaped String.[] = none
after_literal quotes true (String.◌∷◌ c s) = after_literal 0 false s
after_literal quotes false (String.◌∷◌ c s) =
    let next = after_literal (suc quotes) false s in
    let escape = after_literal 0 true s in
    let plain = after_literal 0 false s in
    if nat_eq (code c) b'\\'
    then escape
    else if nat_eq (code c) b'\''
    then (if nat_eq quotes 2 then some s else next)
    else plain

-- The text ends in neither a quote nor a backslash, or is empty at its start.
abbrev pub EndsPlain : Bool → String → Type 0
EndsPlain fresh String.[] = fresh ≡ true
EndsPlain fresh (String.◌∷◌ c s) =
    EndsPlain (not (nat_eq (code c) b'\\') && not (nat_eq (code c) b'\'')) s

-- The quotes that were just read and those that follow are not three.
abbrev Few : ℕ → String → Type 0
Few zero s = Unit
Few (suc zero) s = starts_with s "''" ≡ false
Few (suc (suc zero)) s = starts_with s "'" ≡ false
Few (suc (suc (suc n))) s = ⊥

abbrev closing : String → String
closing rest = str_append "'''" rest

-- The escape of a text, put before the end of the literal.
abbrev escaped_before : String → String → String
escaped_before s rest = str_append (replace_from 2 "'''" "\\'\\'\\'" 0 s) (closing rest)

closing-cons :
    (rest : String) → closing rest ≡ String.◌∷◌ "'" (String.◌∷◌ "'" (String.◌∷◌ "'" rest))
closing-cons rest =
    cons-append "'" "''" rest
    ∙ ap (λ t. String.◌∷◌ "'" t)
        (cons-append "'" "'" rest
          ∙ ap (λ t. String.◌∷◌ "'" t)
              (cons-append "'" "" rest ∙ ap (λ t. String.◌∷◌ "'" t) (nil-append rest)))

after_literal-closing : (rest : String) → after_literal 0 false (closing rest) ≡ some rest
unfolding after_literal
after_literal-closing rest = ap (after_literal 0 false) (closing-cons rest)

-- An escaped quote.
abbrev quote : String → String
quote s = String.◌∷◌ "\\" (String.◌∷◌ "'" s)

append-quote : (s t : String) → str_append (quote s) t ≡ quote (str_append s t)
append-quote s t =
    cons-append "\\" (String.◌∷◌ "'" s) t ∙ ap (λ u. String.◌∷◌ "\\" u) (cons-append "'" s t)

replace_from-miss :
    (c : Char) (s : String)
    → starts_with (String.◌∷◌ c s) "'''" ≡ false
    → replace_from 2 "'''" "\\'\\'\\'" 0 (String.◌∷◌ c s)
      ≡ String.◌∷◌ c (replace_from 2 "'''" "\\'\\'\\'" 0 s)
unfolding replace_from
replace_from-miss c s miss = rw (miss, replace_from) refl

replace_from-hit :
    (c d e : Char) (s : String)
    → starts_with (String.◌∷◌ c (String.◌∷◌ d (String.◌∷◌ e s))) "'''" ≡ true
    → replace_from 2 "'''" "\\'\\'\\'" 0 (String.◌∷◌ c (String.◌∷◌ d (String.◌∷◌ e s)))
      ≡ quote (quote (quote (replace_from 2 "'''" "\\'\\'\\'" 0 s)))
unfolding replace_from
replace_from-hit c d e s hit =
    let t = replace_from 2 "'''" "\\'\\'\\'" 0 s in
    rw (hit, replace_from)
      (append-quote (quote (quote "")) t
        ∙ ap quote
            (append-quote (quote "") t ∙ ap quote (append-quote "" t ∙ ap quote (nil-append t))))

escaped_before-hit :
    (c d e : Char) (s rest : String)
    → starts_with (String.◌∷◌ c (String.◌∷◌ d (String.◌∷◌ e s))) "'''" ≡ true
    → escaped_before (String.◌∷◌ c (String.◌∷◌ d (String.◌∷◌ e s))) rest
      ≡ quote (quote (quote (escaped_before s rest)))
unfolding replace_from
escaped_before-hit c d e s rest hit =
    let t = replace_from 2 "'''" "\\'\\'\\'" 0 s in
    ap (λ u. str_append u (closing rest)) (replace_from-hit c d e s hit)
    ∙ append-quote (quote (quote t)) (closing rest)
    ∙ ap quote (append-quote (quote t) (closing rest) ∙ ap quote (append-quote t (closing rest)))

escaped_before-miss :
    (c : Char) (s rest : String)
    → starts_with (String.◌∷◌ c s) "'''" ≡ false
    → escaped_before (String.◌∷◌ c s) rest ≡ String.◌∷◌ c (escaped_before s rest)
escaped_before-miss c s rest miss =
    ap (λ u. str_append u (closing rest)) (replace_from-miss c s miss)
    ∙ cons-append c (replace_from 2 "'''" "\\'\\'\\'" 0 s) (closing rest)

-- Quotes that are escaped end no literal.
after_literal-quotes :
    (quotes : ℕ) (escaped : Bool) (s : String)
    → after_literal quotes escaped (quote (quote (quote s))) ≡ after_literal 0 false s
unfolding after_literal
after_literal-quotes quotes true s = refl
after_literal-quotes quotes false s = refl

EndsPlain-fresh : (fresh : Bool) (s : String) → EndsPlain fresh s → EndsPlain true s
EndsPlain-fresh fresh String.[] ends = refl
EndsPlain-fresh fresh (String.◌∷◌ c s) ends = ends

-- The rest of a text is escaped rightly, from any state that fits it.
abbrev Reads : String → String → Type 0
Reads s rest =
    (quotes : ℕ) (escaped : Bool)
    → Few quotes s
    → EndsPlain (nat_eq quotes 0 && not escaped) s
    → after_literal quotes escaped (escaped_before s rest) ≡ some rest

-- A bare quote that is none of three: the next ones are fewer.
Few-next :
    (quotes : ℕ) (c : Char) (s : String)
    → nat_eq (code c) b'\'' ≡ true
    → starts_with (String.◌∷◌ c s) "'''" ≡ false
    → Few quotes (String.◌∷◌ c s)
    → Few (suc quotes) s × (nat_eq quotes 2 ≡ false)
unfolding starts_with
Few-next zero c s quote_ miss few = (ground (arith, quote_, miss), refl)
Few-next (suc zero) c s quote_ miss few = (ground (arith, quote_, few), refl)
Few-next (suc (suc zero)) c s quote_ miss few =
    absurd (let e : ⊥ = ground (arith, quote_, few) in e)
Few-next (suc (suc (suc n))) c s quote_ miss few = absurd few

nat_eq-suc : (n : ℕ) → (nat_eq (suc n) 0 && true) ≡ false
nat_eq-suc n = ground arith

Reads-cons :
    (c : Char) (s rest : String)
    → starts_with (String.◌∷◌ c s) "'''" ≡ false
    → Reads s rest
    → Reads (String.◌∷◌ c s) rest
unfolding after_literal
Reads-cons c s rest miss reads quotes true few ends =
    ap (after_literal quotes true) (escaped_before-miss c s rest miss)
    ∙ reads 0 false tt (EndsPlain-fresh _ s ends)
Reads-cons c s rest miss reads quotes false few ends =
    ap (after_literal quotes false) (escaped_before-miss c s rest miss)
    ∙ (elim (Bool-cases (nat_eq (code c) b'\\')) [
      | inl backslash ↦ rw backslash (reads 0 true tt (rw backslash at ends))
      | inr other ↦ elim (Bool-cases (nat_eq (code c) b'\'')) [
        | inl quote_ ↦
            let next = Few-next quotes c s quote_ miss few in
            rw (other, quote_, next.1)
              (reads (suc quotes) false next.0
                (subst (λ b. EndsPlain b s) (sym (nat_eq-suc quotes)) (rw (other, quote_) at ends)))
        | inr plain ↦ rw (other, plain) (reads 0 false tt (EndsPlain-fresh _ s ends))
      ]
    ])

Reads-nil : (rest : String) → Reads String.[] rest
unfolding replace_from
Reads-nil rest zero false few ends =
    ap (after_literal 0 false) (nil-append (closing rest)) ∙ after_literal-closing rest
Reads-nil rest zero true few ends = absurd (false≢true ends)
Reads-nil rest (suc n) escaped few ends = absurd (let e : ⊥ = ground (arith, ends) in e)

after_literal-escaped : (s rest : String) → Reads s rest
unfolding starts_with
after_literal-escaped String.[] rest quotes escaped few ends =
    Reads-nil rest quotes escaped few ends
after_literal-escaped (String.◌∷◌ c String.[]) rest quotes escaped few ends =
    Reads-cons c String.[] rest (ground arith) (Reads-nil rest) quotes escaped few ends
after_literal-escaped (String.◌∷◌ c (String.◌∷◌ d String.[])) rest quotes escaped few ends =
    Reads-cons c (String.◌∷◌ d String.[]) rest (ground arith)
      (after_literal-escaped (String.◌∷◌ d String.[]) rest) quotes escaped few ends
after_literal-escaped (String.◌∷◌ c (String.◌∷◌ d (String.◌∷◌ e s))) rest quotes escaped few ends =
    elim (Bool-cases (starts_with (String.◌∷◌ c (String.◌∷◌ d (String.◌∷◌ e s))) "'''")) [
      | inl hit ↦
          ap (after_literal quotes escaped) (escaped_before-hit c d e s rest hit)
          ∙ after_literal-quotes quotes escaped (escaped_before s rest)
          ∙ after_literal-escaped s rest 0 false tt (EndsPlain-fresh _ s ends)
      | inr miss ↦
          Reads-cons c (String.◌∷◌ d (String.◌∷◌ e s)) rest miss
            (after_literal-escaped (String.◌∷◌ d (String.◌∷◌ e s)) rest) quotes escaped few ends
    ]

quotes-append :
    (t rest : String)
    → str_append (String.◌∷◌ "'" (String.◌∷◌ "'" (String.◌∷◌ "'" t))) rest
      ≡ closing (str_append t rest)
quotes-append t rest =
    cons-append "'" (String.◌∷◌ "'" (String.◌∷◌ "'" t)) rest
    ∙ ap (λ u. String.◌∷◌ "'" u)
        (cons-append "'" (String.◌∷◌ "'" t) rest
          ∙ ap (λ u. String.◌∷◌ "'" u) (cons-append "'" t rest))
    ∙ sym (closing-cons (str_append t rest))

-- The text before the input, up to the quotes that open the literal, and what follows those that
-- close it.
abbrev pub opening : String
opening = "\nimport json\nimport sys\n\n# Input data\nINPUT_DATA = json.loads('''"

abbrev pub user_part : String → String
user_part code = str_append ")\n\n# User code\n" (str_append code (str_append "\n" ""))

-- For an input that ends in neither a quote nor a backslash, whatever quotes and backslashes it has
-- before, the text that is run opens a literal which ends exactly where the runner closes it: the
-- rest is the closing parenthesis and the user's code, so nothing of the input is run as code.
pub full_code-literal :
    (input code : String)
    → EndsPlain true input
    → (body : String) × (full_code (some input) code ≡ str_append opening body)
      × (after_literal 0 false body ≡ some (user_part code))
unfolding escape_input
full_code-literal input code ends = (
  str_append (escape_input input)
      (str_append "''')\n\n# User code\n" (str_append code (str_append "\n" ""))),
  refl,
  ap (λ t. after_literal 0 false (str_append (escape_input input) t))
        (quotes-append ")\n\n# User code\n" (str_append code (str_append "\n" "")))
      ∙ after_literal-escaped input (user_part code) 0 false tt ends,
)
