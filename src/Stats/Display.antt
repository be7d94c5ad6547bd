-- ===== src/Stats/Display.antt =====
-- The text output of stats.rs: `Display for Stats` and `format_size`. The formatter's sink takes all
-- text. How `{:.1}` prints a percentage is the standard library's matter, and a parameter.
pub mod Reading
use zeropool.Base.{
  ℕ, zero, suc, ◌-◌, ◌*◌, ◌/◌, List, [], ◌∷◌, ◌++◌, leb, ltb, if◌then◌else◌, length, Text, codes,
  decimal,
}
use zeropool.Stats.{Stats, Rate, ClassInfo}

unfoldable pub format_size : ℕ → Text
format_size bytes =
    if leb (1024 * 1024) bytes
    then decimal (bytes / (1024 * 1024)) ++ codes "MB"
    else if leb 1024 bytes
    then decimal (bytes / 1024) ++ codes "KB"
    else decimal bytes ++ codes "B"

abbrev pub spaces : ℕ → Text
spaces zero = []
spaces (suc n) = b' ' ∷ spaces n

-- `{:>width}`
unfoldable pub pad_left : ℕ → Text → Text
pad_left width t = spaces (width - length t) ++ t

-- `writeln!(f, "  [{:>7}] {} buffered", …)`
unfoldable pub class_line : ClassInfo → Text
class_line ci =
    codes "  ["
    ++ (pad_left 7 (format_size ci.boundary)
        ++ (codes "] " ++ (decimal ci.buffered ++ codes " buffered\n")))

-- The loop over the classes, which skips the empty ones.
unfoldable pub class_lines : List ClassInfo → Text
unfolding class_line
class_lines [] = []
class_lines (ci ∷ rest) =
    let later = class_lines rest in if ltb 0 ci.buffered then class_line ci ++ later else later

module _ (percent : Rate → Text) where
  unfoldable pub fmt : Stats → Text
  unfolding class_lines
  fmt s =
      codes "gets: "
      ++ (decimal s.gets
          ++ (codes " | puts: "
              ++ (decimal s.puts
                  ++ (codes " | hit_rate: "
                      ++ (percent s.hit_rate
                          ++ (codes "%\n"
                              ++ (codes "  tls_hits: "
                                  ++ (decimal s.tls_hits
                                      ++ (codes " ("
                                          ++ (percent s.tls_hit_rate
                                              ++ (codes "%) | shared_hits: "
                                                  ++ (decimal s.shared_hits
                                                      ++ (codes " | allocations: "
                                                          ++ (decimal s.allocations
                                                            ++ (codes " | discards: "
                                                            ++ (decimal s.discards
                                                            ++ (codes " | oversize: "
                                                            ++ (decimal s.oversize
                                                            ++ (codes "\n"
                                                            ++ class_lines
                                                            s.classes)))))))))))))))))))
