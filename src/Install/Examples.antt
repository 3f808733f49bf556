-- ===== src/Install/Examples.antt =====
-- A start-up file without a newline at its end.
use opencode_advance.Prelude.{String, ◌≡◌, refl, none}
use opencode_advance.Install.Cut.{cut, ends_in_newline}
use opencode_advance.Install.Profile.{sentinel_start, sentinel_end, replace_or_append_block}
use opencode_advance.Install.Profile.Roundtrip.{IsRoundtrip, replace_or_append_block-IsRoundtrip}

abbrev rc : String
rc = "export A=1"

abbrev block : String
block = "eval oca"

rc_without_start : cut sentinel_start rc ≡ none
unfolding cut
rc_without_start = refl

block_without_end : cut sentinel_end block ≡ none
unfolding cut
block_without_end = refl

written_rc :
    replace_or_append_block rc block
    ≡ "export A=1\n# >>> OCA Managed Block >>>\neval oca\n# <<< OCA Managed Block <<<\n"
unfolding replace_or_append_block cut ends_in_newline
written_rc = refl

replace_or_append_block-IsRoundtrip_example : IsRoundtrip rc block
replace_or_append_block-IsRoundtrip_example =
    replace_or_append_block-IsRoundtrip rc block rc_without_start block_without_end
