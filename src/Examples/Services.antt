-- ===== src/Examples/Services.antt =====
-- Configuration values, masks and the logger at concrete inputs, and the theorems about them.
use mathlib.Core.Logic.{◌↔◌}
use pg_cluster.Base.{List, [], arith, break_at, false, refl, true, ◌∷◌, ◌≡◌}
use pg_cluster.Common.Masks.{Matches, has_more, match, match_lem}
use pg_cluster.Common.Values.{
  cons_kept, cut_at, cut_comment, drop_last, enter, first_quoted, is_blank, read_conf_param_value,
  read_cut, release_handler, release_handler_once, strip_left, strip_right,
}
use pg_cluster.Logger.{
  Event, debug_code, error_code, info_code, logs, new_logger, run_logger, stops, wakes,
}
use pg_cluster.Logger.Order.{run_logger_lem}

-- `a*b` and `axxb`
match_lem_example :
    (match (b'a' ∷ 42 ∷ b'b' ∷ []) (b'a' ∷ b'x' ∷ b'b' ∷ []) ≡ true)
    ↔ Matches (b'a' ∷ 42 ∷ b'b' ∷ []) (b'a' ∷ b'x' ∷ b'b' ∷ [])
match_lem_example =
    match_lem (b'a' ∷ 42 ∷ b'b' ∷ []) (b'a' ∷ b'x' ∷ b'b' ∷ [])
      ((omega arith), (λ p. omega arith), ((omega arith), (λ p. omega arith), (omega arith)))
      ((omega arith), ((omega arith), ((omega arith), tt)))

-- A question mark at the end of a mask does not stand for a character.
last_question_mark : match (b'a' ∷ 63 ∷ []) (b'a' ∷ b'b' ∷ []) ≡ false
unfolding match has_more
last_question_mark = refl

-- In front of a star it stands for no character too.
empty_question_mark : match (63 ∷ 42 ∷ []) [] ≡ true
unfolding match has_more
empty_question_mark = refl

-- A star in the text is taken for the star of the mask.
star_in_text : match (42 ∷ []) (42 ∷ b'a' ∷ []) ≡ false
unfolding match has_more
star_in_text = refl

-- Without a space before the comment, a character of the value is lost.
comment_at_once : read_conf_param_value (b'1' ∷ b'0' ∷ 35 ∷ b'c' ∷ []) ≡ b'1' ∷ []
unfolding read_conf_param_value read_cut cut_comment cut_at break_at drop_last first_quoted
    strip_left strip_right cons_kept is_blank
comment_at_once = refl

-- A comment sign within quotes ends the value.
comment_in_quotes : read_conf_param_value (34 ∷ b'a' ∷ 35 ∷ b'b' ∷ 34 ∷ []) ≡ 34 ∷ []
unfolding read_conf_param_value read_cut cut_comment cut_at break_at drop_last first_quoted
    strip_left strip_right cons_kept is_blank
comment_in_quotes = refl

release_handler_once_example :
    ((release_handler (release_handler enter).1).0 ≡ false)
    × ((release_handler enter).1.released ≡ true)
    × ((release_handler enter).1.interrupted ≡ enter.interrupted)
release_handler_once_example = release_handler_once enter

abbrev logged : List Event
logged =
    logs (b'x' ∷ []) info_code
    ∷ wakes 0
    ∷ logs (b'y' ∷ []) debug_code
    ∷ stops
    ∷ logs (b'z' ∷ []) error_code
    ∷ wakes 7
    ∷ []

run_logger_lem_example :
    (run_logger logged (new_logger 20)).written
    ≡ (info_code, b'x' ∷ []) ∷ (error_code, b'z' ∷ []) ∷ []
run_logger_lem_example = run_logger_lem 20 logged (omega arith)
