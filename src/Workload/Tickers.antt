-- ===== src/Workload/Tickers.antt =====
-- The tickers of src/experiments.cpp, src/main.cpp and tools/generator.cpp.
use Prim.Native.Char.{code}
use Prim.Native.String.{String}
use simd_nanoring.Common.{ℕ, List, [], ◌∷◌}

-- The characters of a literal.
abbrev pub codes : String → List ℕ
codes String.[] = []
codes (String.◌∷◌ c s) = code c ∷ codes s

abbrev pub all_codes : List String → List (List ℕ)
all_codes [] = []
all_codes (s ∷ names) = codes s ∷ all_codes names

-- `TICKERS` of src/experiments.cpp
abbrev pub experiment_tickers : List (List ℕ)
experiment_tickers = all_codes (
    "AAPL    " ∷ "MSFT    " ∷ "TSLA    " ∷ "GOOG    " ∷ "AMZN    " ∷ "NFLX    " ∷ "META    "
    ∷ "NVDA    " ∷ "AMD     " ∷ "INTC    " ∷ "JPM     " ∷ "BAC     " ∷ "WMT     " ∷ "DIS     "
    ∷ "ORCL    " ∷ "CRM     " ∷ "PYPL    " ∷ "UBER    " ∷ "SQ      " ∷ "SNAP    " ∷ "BABA    "
    ∷ "JD      " ∷ "PDD     " ∷ "NIO     " ∷ "PLTR    " ∷ "COIN    " ∷ "HOOD    " ∷ "SOFI    "
    ∷ "RIVN    " ∷ "LCID    " ∷ "F       " ∷ "GM      " ∷ "BA      " ∷ "LMT     " ∷ "RTX     "
    ∷ "NOC     " ∷ "XOM     " ∷ "CVX     " ∷ "COP     " ∷ "SLB     " ∷ "PFE     " ∷ "JNJ     "
    ∷ "UNH     " ∷ "ABBV    " ∷ "MRK     " ∷ "LLY     " ∷ "TMO     " ∷ "ABT     " ∷ "V       "
    ∷ "MA      " ∷ "AXP     " ∷ "GS      " ∷ "MS      " ∷ "C       " ∷ "WFC     " ∷ "USB     "
    ∷ "T       " ∷ "VZ      " ∷ "TMUS    " ∷ "CMCSA   " ∷ "NFLX    " ∷ "ROKU    " ∷ "SPOT    "
    ∷ "ZM      " ∷ [])

-- `TICKERS` of src/main.cpp
abbrev pub main_tickers : List (List ℕ)
main_tickers = all_codes (
    "AAPL    " ∷ "MSFT    " ∷ "TSLA    " ∷ "GOOG    " ∷ "AMZN    " ∷ "NFLX    " ∷ "META    "
    ∷ "NVDA    " ∷ "AMD     " ∷ "INTC    " ∷ "JPM     " ∷ "BAC     " ∷ "WMT     " ∷ "DIS     "
    ∷ "ORCL    " ∷ "CRM     " ∷ "PYPL    " ∷ "UBER    " ∷ "SQ      " ∷ "SNAP    " ∷ "BABA    "
    ∷ "JD      " ∷ "PDD     " ∷ "NIO     " ∷ "PLTR    " ∷ "COIN    " ∷ "HOOD    " ∷ "SOFI    "
    ∷ "RIVN    " ∷ "LCID    " ∷ "F       " ∷ "GM      " ∷ "BA      " ∷ "LMT     " ∷ "RTX     "
    ∷ "NOC     " ∷ "XOM     " ∷ "CVX     " ∷ "COP     " ∷ "SLB     " ∷ "PFE     " ∷ "JNJ     "
    ∷ "UNH     " ∷ "ABBV    " ∷ "MRK     " ∷ "LLY     " ∷ "TMO     " ∷ "ABT     " ∷ "V       "
    ∷ "MA      " ∷ "AXP     " ∷ "GS      " ∷ "MS      " ∷ "C       " ∷ "WFC     " ∷ "USB     "
    ∷ "T       " ∷ "VZ      " ∷ "TMUS    " ∷ "CMCSA   " ∷ "ROKU    " ∷ "SPOT    " ∷ "ZM      "
    ∷ "DOCU    " ∷ [])

-- `tickers` of tools/generator.cpp
abbrev pub mock_tickers : List (List ℕ)
mock_tickers = all_codes (
    "AAPL    " ∷ "MSFT    " ∷ "TSLA    " ∷ "GOOG    " ∷ "AMZN    " ∷ "NFLX    " ∷ "META    "
    ∷ "NVDA    " ∷ [])
