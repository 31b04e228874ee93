-- ===== src/Tests/Provider.antt =====
-- Examples of the calls of the CLI and of its paths.
use dropbox_mirror.Base.{
  ◌%◌, ℕ, max, [], ◌∷◌, ◌++◌, Text, codes, ◌==◌, nat_eq, text_eq, option_eq, if◌then◌else◌, ok, ◌≡◌,
  refl,
}
use dropbox_mirror.Base.Int.{ℤ, pos}
use dropbox_mirror.Proton.Invoke.{invoke-Invocation, invoke, Invocation, timed_out, exited, Call}
use dropbox_mirror.Proton.Mutation.{Cli, returned}
use dropbox_mirror.Proton.Names.{escape_component, slash, preceding_backslashes, split_parent_path}
use dropbox_mirror.Proton.Names.Laws.{split_parent_path-join, escape_component-injective}

abbrev plain_digits : ℤ → Text
plain_digits n = codes "1"

abbrev cli : Cli
cli = record {
  now = codes "t1";
  call = λ argv. ok (returned (pos 1) [] (codes "login first"));
  casefold = λ s. s;
  digits = plain_digits;
  logger = record { now = codes "t1"; redact = λ s. s };
  transfer_timeout_seconds = 3600;
  command_timeout_seconds = 300;
}

-- Two timeouts and then an answer.
abbrev answers : ℕ → Call
answers n = if n == 3 then exited (pos 0) (codes "[]") [] else timed_out

invoke-Invocation_example : Invocation 5 (max 2 30) (invoke (λ s. s) answers 2 30 5)
invoke-Invocation_example = invoke-Invocation (λ s. s) answers 2 30 5

even_parent : preceding_backslashes (codes "selif-ym/") % 2 ≡ 0
unfolding preceding_backslashes
even_parent = refl

split_parent_path-join_example :
    split_parent_path (codes "/my-files" ++ (slash ∷ escape_component (codes "a/b")))
    ≡ ok (codes "/my-files", escape_component (codes "a/b"))
split_parent_path-join_example =
    split_parent_path-join (codes "/my-files") (codes "a/b") (λ e. cc) even_parent (λ e. cc)

escape_component-injective_example : codes "a/b" ≡ codes "a/b"
escape_component-injective_example = escape_component-injective (codes "a/b") (codes "a/b") refl
