-- ===== src/Slurm/Names.antt =====
-- The names and texts that are sent to the accounting database.
use clusterctl.Prelude.{
  ℕ, Bool, false, not, ◌&&◌, ◌||◌, Option, none, some, List, [], ◌∷◌, Bytes, codes, eqb, all, leb,
  ◌==◌, if◌then◌else◌,
}
use clusterctl.ExitCode.{Error, usage}
use clusterctl.Slurm.Act.{refusal}
use clusterctl.Slurm.Nodes.{is_alnum}
use clusterctl.Slurm.Update.{check_plain}

-- validName
unfoldable pub is_name : Bytes → Bool
is_name [] = false
is_name (c ∷ s) =
    (is_alnum c || c == b'_')
    && all (λ b. is_alnum b || (b == b'_' || (b == b'.' || (b == b'@' || b == b'-')))) s

-- ValidateName
unfoldable pub validate_name : Bytes → Option Error
unfolding is_name
validate_name value =
    if is_name value then none else some (refusal usage "use letters, digits and . _ @ - only")

abbrev pub is_digit : ℕ → Bool
is_digit c = leb b'0' c && leb c b'9'

-- ValidateUserName: a text of digits alone is nothing once they are trimmed
unfoldable pub validate_user_name : Bytes → Option Error
unfolding validate_name
validate_user_name value = elim (validate_name value) [
  | some e ↦ some e
  | none ↦ if all is_digit value then some (refusal usage "a number, not a user name") else none
]

-- ValidateText, of a text with these characters
unfoldable pub validate_text : (Bytes → List ℕ) → Bytes → Option Error
unfolding check_plain
validate_text runes value = check_plain (runes value)

-- fairShare
unfoldable pub is_fair_share : Bytes → Bool
is_fair_share value = not (eqb value []) && all is_digit value || eqb value (codes "parent")

-- ValidateFairShare
unfoldable pub validate_fair_share : Bytes → Option Error
unfolding is_fair_share
validate_fair_share value =
    if is_fair_share value then none else some (refusal usage "give a whole number or parent")
