-- ===== src/Proton/Invoke.antt =====
-- src/migrator/providers/proton_cli.py: one CLI invocation under the provider's retry policy. What
-- each call of the executable comes to is an argument, and so is the case folding of Unicode. The
-- write-back of the session after each call and the observers of an attempt are left out.
use dropbox_mirror.Base.{
  drop, ℕ, zero, suc, ◌+◌, ◌-◌, ◌*◌, ◌≤◌, min, max, Bool, true, false, ◌||◌, Option, none, some,
  List, [], ◌∷◌, length, All, Text, ◌==◌, nat_eq, text_eq, option_eq, if◌then◌else◌, ◌≡◌, refl, inl,
  inr, arith, Bool-cases,
}
use dropbox_mirror.Base.Int.{ℤ, pos, negsuc}
use dropbox_mirror.Proton.Names.{Category, category, success, timeout, is_success, is_auth}

-- What `subprocess.run` returns or raises.
pub data Call : Type 0 where
  timed_out : Call
  exited : ℤ → Text → Text → Call

pub record Attempt : Type 0 where
  pub attempt : ℕ
  pub returncode : ℤ
  pub category : Category
  pub stdout : Text
  pub stderr : Text

-- `s[-n:]`
abbrev pub last_chars : ℕ → Text → Text
last_chars n s = drop (length s - n) s

-- `"SUCCESS" if result.returncode == 0 else _category(...)`
unfoldable pub category_of : (Text → Text) → ℤ → Text → Category
unfolding category
category_of casefold (pos zero) stderr = success
category_of casefold code stderr = category casefold stderr code

unfoldable pub attempt_of : (Text → Text) → ℕ → Call → Attempt
unfolding category_of
attempt_of casefold attempt timed_out = record {
  attempt = attempt;
  returncode = negsuc 0;
  category = timeout;
  stdout = [];
  stderr = [];
}
attempt_of casefold attempt (exited code stdout stderr) = record {
  attempt = attempt;
  returncode = code;
  category = category_of casefold code stderr;
  stdout = stdout;
  stderr = last_chars 4000 stderr;
}

-- The result, the attempts made, and the delays slept.
pub record Invoked : Type 0 where
  pub stdout : Option Text
  pub made : List Attempt
  pub slept : List ℕ

abbrev pub add_attempt : Attempt → ℕ → Invoked → Invoked
add_attempt a delay i = record i { made = a ∷ i.made; slept = delay ∷ i.slept }

abbrev pub ended : Attempt → Option Text → Invoked
ended a stdout = record { stdout = stdout; made = a ∷ []; slept = [] }

-- The rest of a round; `rest` is what the further attempts come to, and `left` is their number.
abbrev pub judge : ℕ → ℕ → Attempt → Invoked → Invoked
judge left delay a rest =
    if is_success a.category
    then ended a (some a.stdout)
    else if is_auth a.category || (left == 0)
    then ended a none
    else add_attempt a delay rest

-- `for attempt in range(attempt, attempt + left)`
unfoldable pub invoke_loop : (Text → Text) → (ℕ → Call) → ℕ → ℕ → ℕ → ℕ → Invoked
unfolding attempt_of
invoke_loop casefold call maximum_backoff zero attempt delay = record {
  stdout = none;
  made = [];
  slept = [];
}
invoke_loop casefold call maximum_backoff (suc left) attempt delay =
    let rest =
      invoke_loop casefold call maximum_backoff left (attempt + 1)
        (min (delay * 2) maximum_backoff) in
    judge left delay (attempt_of casefold attempt (call attempt)) rest

unfoldable pub invoke : (Text → Text) → (ℕ → Call) → ℕ → ℕ → ℕ → Invoked
unfolding invoke_loop
invoke casefold call initial_backoff maximum_backoff attempts =
    invoke_loop casefold call maximum_backoff attempts 1 initial_backoff

-- Only the last attempt succeeds or is an authentication failure: nothing is tried after one.
abbrev pub Retried : List Attempt → Type 0
Retried [] = Unit
Retried (a ∷ []) = Unit
Retried (a ∷ b ∷ made) =
    (is_success a.category ≡ false) × (is_auth a.category ≡ false) × Retried (b ∷ made)

-- The output is that of the last attempt if it succeeds, and there is none otherwise.
abbrev pub Ends : Option Text → List Attempt → Type 0
Ends stdout [] = stdout ≡ none
Ends stdout (a ∷ []) = stdout ≡ (if is_success a.category then some a.stdout else none)
Ends stdout (a ∷ b ∷ made) = Ends stdout (b ∷ made)

abbrev pub Invocation : ℕ → ℕ → Invoked → Type 0
Invocation attempts bound i =
    (length i.made ≤ attempts)
    × Retried i.made
    × Ends i.stdout i.made
    × All (λ d. d ≤ bound) i.slept

or_left : (a b : Bool) → (a || b) ≡ false → a ≡ false
or_left true b h = cc
or_left false b h = refl

Retried-cons :
    (a : Attempt) (made : List Attempt)
    → is_success a.category ≡ false
    → is_auth a.category ≡ false
    → Retried made
    → Retried (a ∷ made)
Retried-cons a [] s f h = tt
Retried-cons a (b ∷ made) s f h = (s, f, h)

Ends-cons :
    (o : Option Text) (a : Attempt) (made : List Attempt)
    → is_success a.category ≡ false
    → Ends o made
    → Ends o (a ∷ made)
Ends-cons o a [] f h = rw f h
Ends-cons o a (b ∷ made) f h = h

judge-Invocation :
    (left bound delay : ℕ) (a : Attempt) (rest : Invoked)
    → delay ≤ bound
    → Invocation left bound rest
    → Invocation (suc left) bound (judge left delay a rest)
judge-Invocation left bound delay a rest below (most, retried, ends, slept) =
    elim (Bool-cases (is_success a.category)) [
      | inl t ↦ rw t (omega arith, tt, rw t refl, tt)
      | inr f ↦ rw f (elim (Bool-cases (is_auth a.category || (left == 0))) [
        | inl over ↦ rw over (omega arith, tt, rw f refl, tt)
        | inr more ↦ rw more (
          omega (arith, most),
          Retried-cons a rest.made f (or_left (is_auth a.category) (left == 0) more) retried,
          Ends-cons rest.stdout a rest.made f ends,
          (below, slept),
        )
      ])
    ]

loop-Invocation :
    (casefold : Text → Text) (call : ℕ → Call) (maximum_backoff left attempt delay bound : ℕ)
    → delay ≤ bound
    → maximum_backoff ≤ bound
    → Invocation left bound (invoke_loop casefold call maximum_backoff left attempt delay)
unfolding invoke_loop
loop-Invocation casefold call maximum_backoff zero attempt delay bound d m =
    (omega arith, tt, refl, tt)
loop-Invocation casefold call maximum_backoff (suc left) attempt delay bound d m =
    judge-Invocation left bound delay (attempt_of casefold attempt (call attempt))
      (invoke_loop casefold call maximum_backoff left (attempt + 1)
        (min (delay * 2) maximum_backoff))
      d
      (loop-Invocation casefold call maximum_backoff left (attempt + 1)
        (min (delay * 2) maximum_backoff) bound (omega (arith, m)) m)

-- The retry policy: at most the given number of attempts is made, nothing is tried after a success
-- or an authentication failure, the output is the last attempt's if it succeeds and none
-- otherwise, and no delay is longer than the larger of the two backoffs.
pub invoke-Invocation :
    (casefold : Text → Text) (call : ℕ → Call) (initial_backoff maximum_backoff attempts : ℕ)
    → Invocation attempts
        (max initial_backoff maximum_backoff)
        (invoke casefold call initial_backoff maximum_backoff attempts)
unfolding invoke
invoke-Invocation casefold call initial_backoff maximum_backoff attempts =
    loop-Invocation casefold call maximum_backoff attempts 1 initial_backoff
      (max initial_backoff maximum_backoff) (omega arith) (omega arith)
