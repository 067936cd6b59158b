-- ===== src/CString/Tests.antt =====
-- The string routines of src/lib/string.c at concrete strings.
use nupkux.Base.{ℕ, ◌≡◌, refl, List, [], ◌∷◌, none, some, negsuc, arith}
use nupkux.CString.{
  strcmp, strncmp, strlen, strchr, strcpy, strtok, strtok_save, tokenise, skip_loop, cut_token,
  token_end, nearer,
}
use nupkux.CString.Copy.{strlen-length}
use nupkux.CString.Tokens.{strtok_save_lem}

abbrev abc : List ℕ
abc = b'a' ∷ b'b' ∷ b'c' ∷ []

abbrev abd : List ℕ
abd = b'a' ∷ b'b' ∷ b'd' ∷ []

-- "/usr//lib"
abbrev path : List ℕ
path = b'/' ∷ b'u' ∷ b's' ∷ b'r' ∷ b'/' ∷ b'/' ∷ b'l' ∷ b'i' ∷ b'b' ∷ []

abbrev usr : List ℕ
usr = b'u' ∷ b's' ∷ b'r' ∷ []

strcmp_less : strcmp (some abc) (some abd) ≡ negsuc 0
unfolding strcmp
strcmp_less = refl

-- Two strings that agree in two bytes are told apart by `strncmp` up to two.
strncmp_two : strncmp (some abc) (some abd) 2 ≡ negsuc 0
unfolding strncmp
strncmp_two = refl

strlen-path : strlen path ≡ 9
unfolding strlen
strlen-path = refl

strcpy-usr : strcpy (9 ∷ 9 ∷ 9 ∷ 9 ∷ 9 ∷ []) usr ≡ some (b'u' ∷ b's' ∷ b'r' ∷ 0 ∷ 9 ∷ [])
unfolding strcpy
strcpy-usr = refl

-- The first token, and what `strtok` keeps for the next call.
strtok_first :
    strtok (some path) (some (b'/' ∷ [])) none
    ≡ record { result = some usr; saved = some (b'/' ∷ b'l' ∷ b'i' ∷ b'b' ∷ []) }
unfolding strtok strtok_save tokenise skip_loop cut_token token_end nearer strchr strlen
strtok_first = refl

strlen-length_example : strlen path ≡ 9
strlen-length_example = strlen-length path (omega arith)

strtok_save_lem_example :
    (strtok_save (some path) (some (b'/' ∷ [])) none
      ≡ record { result = some usr; saved = some (b'/' ∷ b'l' ∷ b'i' ∷ b'b' ∷ []) })
    × (strtok_save none (some (b'/' ∷ [])) (some path)
        ≡ record { result = some usr; saved = some (b'/' ∷ b'l' ∷ b'i' ∷ b'b' ∷ []) })
strtok_save_lem_example = strtok_save_lem path b'/' [] none (omega arith) (omega arith)
