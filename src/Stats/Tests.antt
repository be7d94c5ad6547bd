-- ===== src/Stats/Tests.antt =====
-- The statistics as stats.rs prints them.
use zeropool.Base.{◌∷◌, codes, decimal, digits, ◌≡◌, refl, List, [], some, arith}
use zeropool.Stats.{Counters, ClassInfo}
use zeropool.Stats.Display
use zeropool.Stats.Display.{fmt, class_lines}
use zeropool.Stats.Display.Reading.{read_classes, nonempty, read_classes-class_lines}

abbrev three_calls : Counters
three_calls = record {
  gets = 3;
  tls_hits = 1;
  shared_hits = 1;
  allocations = 1;
  puts = 0;
  discards = 0;
  oversize = 0;
}

abbrev two_classes : List ClassInfo
two_classes =
    record { boundary = 4096; buffered = 12 }
    ∷ record { boundary = 16384; buffered = 0 }
    ∷ record { boundary = 67108864; buffered = 3 }
    ∷ []

read_classes-class_lines_example :
    read_classes 4 (class_lines two_classes) ≡ some (nonempty two_classes)
read_classes-class_lines_example = read_classes-class_lines 4 two_classes (omega arith)

-- With rates printed as their numerators.
printed :
    fmt
      (λ r. decimal r.over)
      (record {
        counters = three_calls;
        tls_hit_rate = record { over = 1; under = 3 };
        hit_rate = record { over = 2; under = 3 };
        classes = two_classes;
      })
    ≡ codes
        "gets: 3 | puts: 0 | hit_rate: 2%\n  tls_hits: 1 (1%) | shared_hits: 1 | allocations: 1 | discards: 0 | oversize: 0\n  [    4KB] 12 buffered\n  [   64MB] 3 buffered\n"
unfolding fmt class_lines decimal digits Display.class_line Display.pad_left Display.format_size
printed = refl
