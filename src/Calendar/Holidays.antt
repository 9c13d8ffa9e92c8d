-- ===== src/Calendar/Holidays.antt =====
-- app/market_calendar/data/year_2026.py, holidays.py and segments.py.
use ai_market_scanning_engin.Prelude.{
  ℕ, String, Bool, true, false, List, [], ◌∷◌, ◌==◌, ◌||◌, Option, none, some,
}
use ai_market_scanning_engin.Calendar.Dates.{date}

pub data MarketSegment : Type 0 where
  equity fno : MarketSegment

abbrev pub segment_eq : MarketSegment → MarketSegment → Bool
segment_eq equity equity = true
segment_eq fno fno = true
segment_eq _ _ = false

pub record NseHoliday : Type 0 where
  pub day : ℕ
  pub name : String
  pub segments : List MarketSegment
  pub verified_via_official_circular : Bool
  pub special_session : Bool

-- `segment in holiday.segments`
abbrev pub in_segments : MarketSegment → List MarketSegment → Bool
in_segments s [] = false
in_segments s (t ∷ rest) = segment_eq t s || in_segments s rest

abbrev pub both : List MarketSegment
both = equity ∷ fno ∷ []

abbrev pub equity_only : List MarketSegment
equity_only = equity ∷ []

-- `_h`, for a day closed in both segments by the F&O circular
abbrev pub closed : ℕ → String → NseHoliday
closed day name = record {
  day = day;
  name = name;
  segments = both;
  verified_via_official_circular = true;
  special_session = false;
}

unfoldable pub holidays_2026 : List NseHoliday
unfolding date
holidays_2026 =
    closed (date 2026 1 26) "Republic Day"
    ∷ closed (date 2026 3 3) "Holi"
    ∷ closed (date 2026 3 26) "Shri Ram Navami"
    ∷ closed (date 2026 3 31) "Shri Mahavir Jayanti"
    ∷ closed (date 2026 4 3) "Good Friday"
    ∷ closed (date 2026 4 14) "Dr. Baba Saheb Ambedkar Jayanti"
    ∷ closed (date 2026 5 1) "Maharashtra Day"
    ∷ closed (date 2026 5 28) "Bakri Id"
    ∷ closed (date 2026 6 26) "Muharram"
    ∷ closed (date 2026 9 14) "Ganesh Chaturthi"
    ∷ closed (date 2026 10 2) "Mahatma Gandhi Jayanti"
    ∷ closed (date 2026 10 20) "Dussehra"
    ∷ closed (date 2026 11 10) "Diwali-Balipratipada"
    ∷ closed (date 2026 11 24) "Prakash Gurpurb Sri Guru Nanak Dev"
    ∷ closed (date 2026 12 25) "Christmas"
    ∷ record {
      day = date 2026 1 15;
      name = "Municipal Corporation Election - Maharashtra";
      segments = equity_only;
      verified_via_official_circular = false;
      special_session = false;
    }
    ∷ closed (date 2026 2 15) "Mahashivratri"
    ∷ closed (date 2026 3 21) "Id-Ul-Fitr (Ramadan Eid)"
    ∷ closed (date 2026 8 15) "Independence Day"
    ∷ record {
      day = date 2026 11 8;
      name = "Diwali Laxmi Pujan";
      segments = both;
      verified_via_official_circular = true;
      special_session = true;
    }
    ∷ []

-- `HOLIDAYS_BY_YEAR`: `none` is a year that is not a key
unfoldable pub holidays_by_year : ℕ → Option (List NseHoliday)
unfolding holidays_2026
holidays_by_year year = elim (year == 2026) [ true ↦ some holidays_2026 | false ↦ none ]
