-- ===== src/Tests/Memory.antt =====
-- The buffer module at concrete inputs.
use tiny_base.Base.{inl, ℕ, ◌+◌, ◌≡◌, ◌↔◌, true, Option, some, arith, [], ◌∷◌, ◌==◌}
use tiny_base.Mem.{Mem}
use tiny_base.Memory.{
  buffer, contents, IsWritable, return_bool, return_idx_diff, return_ptr_diff, search_reverse,
  of_bool,
}
use tiny_base.Memory.Compare.{compare_buffers, equal_buffers}
use tiny_base.Memory.Compare.Laws.{IsDiff, compare_buffers_lem, equal_buffers_iff}
use tiny_base.Memory.Search.{portable, buffer_in_buffer}
use tiny_base.Memory.Search.Spec.{IsLeast, IsGreatest, OccursAt, Reports}
use tiny_base.Memory.Search.Portable.{portable-IsCorrect}
use tiny_base.Memory.Search.Laws.{buffer_in_buffer_lem}
use tiny_base.Memory.Edit.{
  append_data_to_buffer, append_buffer_to_buffer_n_times, replace_byte_in_buffer,
}
use tiny_base.Memory.Edit.Spec.{Appends}
use tiny_base.Memory.Edit.Laws.{append_data_to_buffer-Appends}
use tiny_base.Memory.Edit.Times.{append_buffer_to_buffer_n_times-Appends}
use tiny_base.Memory.Edit.Replace.{Replaced, replace_byte_in_buffer-Replaced}
use tiny_base.Memory.Edit.Arena.{push_all, Stacked, push_all-Stacked}
use tiny_base.Tests.Data.{mem, banana, an, free16}

buffer_in_buffer_lem_example :
    ((o : Option ℕ) × IsLeast (OccursAt mem an banana) o
      × Reports (buffer_in_buffer portable mem an banana) 0 100 2 o)
    × ((o : Option ℕ) × IsGreatest (OccursAt mem an banana) o
        × Reports (buffer_in_buffer portable mem an banana) search_reverse 100 2 o)
buffer_in_buffer_lem_example =
    buffer_in_buffer_lem portable mem an banana portable-IsCorrect (omega arith) (omega arith)
      (omega arith)

compare_buffers_lem_example :
    (d : ℕ) × IsDiff mem 100 200 2 d
    × (compare_buffers mem banana an 2 return_idx_diff ≡ d)
    × (compare_buffers mem banana an 2 return_ptr_diff ≡ 100 + d)
    × (compare_buffers mem banana an 2 return_bool ≡ of_bool (d == 2))
compare_buffers_lem_example = compare_buffers_lem mem banana an 2 (omega arith) (omega arith)

equal_buffers_iff_example :
    (equal_buffers mem (buffer 101 2 0) an ≡ true)
    ↔ (contents mem (buffer 101 2 0) ≡ contents mem an)
equal_buffers_iff_example = equal_buffers_iff mem (buffer 101 2 0) an (omega arith)

free16-IsWritable : IsWritable free16
free16-IsWritable = omega arith

append_data_to_buffer-Appends_example :
    Appends mem free16 (98 ∷ 97 ∷ 110 ∷ []) (append_data_to_buffer mem 100 3 free16)
append_data_to_buffer-Appends_example =
    append_data_to_buffer-Appends mem 100 3 free16 free16-IsWritable (inl (omega arith))

append_buffer_to_buffer_n_times-Appends_example :
    Appends mem free16
      (97 ∷ 110 ∷ 97 ∷ 110 ∷ 97 ∷ 110 ∷ [])
      (append_buffer_to_buffer_n_times mem an 3 free16)
append_buffer_to_buffer_n_times-Appends_example =
    append_buffer_to_buffer_n_times-Appends mem an 3 free16 free16-IsWritable (omega arith)
      (omega arith)

replace_byte_in_buffer-Replaced_example :
    (g : Mem) × (replace_byte_in_buffer portable 7 mem 97 111 banana ≡ some g)
    × Replaced 97 111 banana mem g
replace_byte_in_buffer-Replaced_example =
    replace_byte_in_buffer-Replaced portable mem 97 111 banana 7 portable-IsCorrect (omega arith)
      (omega arith) (omega arith) (omega arith)

push_all-Stacked_example : Stacked 300 316 (push_all free16 (5 ∷ 20 ∷ 11 ∷ 1 ∷ []))
push_all-Stacked_example =
    push_all-Stacked free16 (5 ∷ 20 ∷ 11 ∷ 1 ∷ []) free16-IsWritable (omega arith) (omega arith)
