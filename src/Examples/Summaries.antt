-- ===== src/Examples/Summaries.antt =====
-- The curve of a summary, and the share of the hottest words, at the trace of three windows.
use mathlib.Core.List.Permᴰ
use memory_tiering.Prelude.{
  ◌≤◌, ◌<◌, ◌≡◌, refl, [], ◌∷◌, false, none, some, map, arith, sum_by, drop, take,
}
use memory_tiering.Numpy.Reference.{reference, sort_rows}
use memory_tiering.Turnover.{Ratio}
use memory_tiering.Trace.{Record}
use memory_tiering.Curves.{figure4_cdf, fig4_n, top_word_share}
use memory_tiering.Curves.Summary.{Line, figure4_from_summary}
use memory_tiering.Curves.Laws.{with_hist, words_hist, signed, figure4_from_summary-figure4_cdf}
use memory_tiering.Curves.Shares.{top_word_share-le}
use memory_tiering.Examples.Analysis.{trace}

abbrev epochs_line : Line
epochs_line = record {
  full_histogram = false;
  figure10 = false;
  comment = false;
  log2_bucket = false;
  blank = false;
  fields = none;
  key_value = some ("epochs", "3");
}

figure4_from_summary-figure4_cdf_example :
    figure4_from_summary (with_hist (epochs_line ∷ []) (words_hist reference trace)) fig4_n
    ≡ map signed (figure4_cdf reference trace fig4_n none)
figure4_from_summary-figure4_cdf_example =
    figure4_from_summary-figure4_cdf reference (epochs_line ∷ []) trace fig4_n
      (omega arith, (omega arith, (omega arith, (omega arith, (omega arith, tt)))))
      (omega arith, (omega arith, (omega arith, (omega arith, (omega arith, tt)))))

abbrev hottest_two : Ratio
hottest_two = record { num = 18; den = 21 }

abbrev hottest_three : Ratio
hottest_three = record { num = 21; den = 21 }

share_runs : top_word_share reference 2 trace ≡ some hottest_two
unfolding top_word_share sum_by drop sort_rows
share_runs = refl

more_runs : top_word_share reference 3 trace ≡ some hottest_three
unfolding top_word_share sum_by drop sort_rows
more_runs = refl

top_word_share-le_example :
    (sum_by (λ (r : Record). sum_by (λ c. c) (take 2 r.words)) trace ≤ 18)
    × (18 ≤ 21)
    × (hottest_two.den ≡ 21)
    × (21 ≤ 21)
    × (0 < 21)
top_word_share-le_example =
    top_word_share-le reference 2 3 trace (λ r. r.words) hottest_two hottest_three (omega arith)
      (omega arith) (λ r. Permᴰ.refl r.words) share_runs more_runs
