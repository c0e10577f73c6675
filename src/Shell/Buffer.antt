-- ===== src/Shell/Buffer.antt =====
-- The string in the line buffer of kernel/shell.c.
use xbks.Prelude.{
  ℕ, zero, suc, ◌<◌, ◌≤◌, ◌≡◌, ◌≢◌, refl, ap, ap₂, sym, ◌∙◌, inl, inr, false, Bool-cases, List, [],
  ◌∷◌, ◌++◌, All, length, take, set, ◌==◌, arith,
}
use xbks.CString.{char_at, strcmp, is_zero}
use xbks.CString.Text.{text}
use xbks.Ramdisk.Find.{same_text_iff}
use xbks.Shell.Commands.{Console, BootInfo, ShellCommand, find_command, run_command}

char_at-text : (a : List ℕ) → char_at (text a) ≡ char_at a
unfolding text
char_at-text [] = refl
char_at-text (c ∷ a) = elim (Bool-cases (c == 0)) [
  | inl e ↦ rw e (ground arith)
  | inr e ↦ rw e refl
]

same_test : (a b n : List ℕ) → text a ≡ text b → is_zero (strcmp a n) ≡ is_zero (strcmp b n)
same_test a b n e =
    let (there, back) = same_text_iff a n in
    let (there', back') = same_text_iff b n in
    elim (Bool-cases (is_zero (strcmp a n))) [
      | inl y ↦ y ∙ sym (back' (sym e ∙ there y))
      | inr n' ↦ elim (Bool-cases (is_zero (strcmp b n))) [
        | inl y ↦ absurd (cc (back (e ∙ there' y), n'))
        | inr n'' ↦ n' ∙ sym n''
      ]
    ]

find_command-text :
    (console : Console) (boot_info : BootInfo) (a b : List ℕ) (commands : List ShellCommand)
    → text a ≡ text b
    → find_command console boot_info a commands ≡ find_command console boot_info b commands
unfolding find_command
find_command-text console boot_info a b [] e = rw e refl
find_command-text console boot_info a b (command ∷ rest) e =
    rw (same_test a b command.name e, find_command-text console boot_info a b rest e) refl

-- A command depends on the text before the NUL alone.
pub run_command-text :
    (console : Console) (boot_info : BootInfo) (a b : List ℕ)
    → text a ≡ text b
    → run_command console boot_info a ≡ run_command console boot_info b
unfolding run_command
run_command-text console boot_info a b e =
    let first : char_at a ≡ char_at b = sym (char_at-text a) ∙ ap char_at e ∙ char_at-text b in
    rw (first, find_command-text console boot_info a b _ e) refl

pub text_whole : (t : List ℕ) → All (λ c. c ≢ 0) t → text t ≡ t
unfolding text
text_whole [] h = refl
text_whole (c ∷ t) (ne, h) =
    let e : (c == 0) ≡ false = ground arith in rw e (ap (λ u. c ∷ u) (text_whole t h))

pub text-set :
    (line t : List ℕ)
    → take (length t) line ≡ t
    → All (λ c. c ≢ 0) t
    → length t < length line
    → text (set line (length t) 0) ≡ t
unfolding text
text-set [] t e h b = absurd (omega arith)
text-set (c ∷ line) [] e h b = refl
text-set (c ∷ line) (d ∷ t) e (ne, h) b =
    let same : c ≡ d = cc in
    let apart : (c == 0) ≡ false = ground arith in
    let tail : take (length t) line ≡ t = cc in
    rw apart (ap₂ (λ x u. x ∷ u) same (text-set line t tail h (omega arith)))

pub take-set :
    (line : List ℕ) (n c : ℕ)
    → n < length line
    → take (suc n) (set line n c) ≡ take n line ++ (c ∷ [])
take-set [] n c b = absurd (omega arith)
take-set (d ∷ line) zero c b = refl
take-set (d ∷ line) (suc n) c b = ap (λ u. d ∷ u) (take-set line n c (omega arith))

pub take-take : (m n : ℕ) (line : List ℕ) → m ≤ n → take m (take n line) ≡ take m line
take-take zero n line b = refl
take-take (suc m) zero line b = absurd (omega arith)
take-take (suc m) (suc n) [] b = refl
take-take (suc m) (suc n) (c ∷ line) b = ap (λ u. c ∷ u) (take-take m n line (omega arith))

pub All-append :
    (t u : List ℕ) → All (λ c. c ≢ 0) t → All (λ c. c ≢ 0) u → All (λ c. c ≢ 0) (t ++ u)
All-append [] u h h' = h'
All-append (c ∷ t) u (ne, h) h' = (ne, All-append t u h h')
