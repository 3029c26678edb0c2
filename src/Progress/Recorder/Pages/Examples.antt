-- ===== src/Progress/Recorder/Pages/Examples.antt =====
-- A page of the sample ledger (crates/gareji-core/src/progress/mod.rs).
use gareji_core.Base.{
  ◌≡◌, refl, none, some, [], ◌∷◌, Text, codes, ok, ltb, if◌then◌else◌, length, take, text_ord,
  text_leq, ◌==◌, opt_eq, sort_by,
}
use gareji_core.Progress.{CheckpointQuery, CheckpointPage, DeliveryReceipt, pending, from_db}
use gareji_core.Progress.Samples.{
  one_recorded, one_recorded-IsSound, first_row, first_checkpoint, packages,
}
use gareji_core.Progress.Ledger.{find_checkpoint, select_deliveries}
use gareji_core.Progress.Recorder.{read_all, read_delivery, validate_bounded_id}
use gareji_core.Progress.Recorder.Pages.{
  before_cursor, selects, page_rows, read_checkpoint, push_last, open_checkpoint, add_delivery,
  assemble, check_optional_id, validate_query, cut_page, list,
}
use gareji_core.Progress.Recorder.Pages.Assembly.{page_status}
use gareji_core.Progress.Recorder.Pages.Order.{
  selected, last_row, drop, next_query, selected-next_query,
}
use gareji_core.Progress.Recorder.Pages.Listing.{row_id, list_page}

program : Unit {0}
unfolding text_leq ◌==◌ opt_eq sort_by from_db find_checkpoint select_deliveries read_delivery
    validate_bounded_id before_cursor selects page_rows read_checkpoint push_last open_checkpoint
    add_delivery assemble check_optional_id validate_query cut_page list page_status
program = tt

abbrev one_core : CheckpointQuery
one_core = record {
  project_id = codes "core";
  work_item_id = none;
  before_checkpoint_id = none;
  limit = 1;
}

abbrev waiting : Text → DeliveryReceipt
waiting id = record { destination_id = id; status = pending; attempts = 0; last_error = none }

abbrev one_page : CheckpointPage
one_page = record {
  checkpoints =
      record {
        checkpoint = first_checkpoint;
        deliveries = waiting (codes "board") ∷ waiting (codes "json") ∷ [];
      }
      ∷ [];
  next_cursor = none;
}

listed : list packages one_recorded one_core ≡ ok one_page
unfolding program
listed = refl

list_page_example :
    (read_all (page_status packages one_recorded) (take 1 (selected one_recorded one_core))
      ≡ ok one_page.checkpoints)
    × (one_page.next_cursor ≡ (
        if ltb 1 (length (selected one_recorded one_core))
        then row_id (last_row (take 1 (selected one_recorded one_core)))
        else none))
list_page_example = list_page packages one_recorded one_core one_recorded-IsSound listed

last_selected : last_row (take 1 (selected one_recorded one_core)) ≡ some first_row
unfolding program
last_selected = refl

selected-next_query_example :
    selected one_recorded (next_query one_core first_row) ≡ drop 1 (selected one_recorded one_core)
selected-next_query_example =
    selected-next_query one_recorded one_core first_row one_recorded-IsSound last_selected
