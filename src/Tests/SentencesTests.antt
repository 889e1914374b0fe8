-- ===== src/Tests/SentencesTests.antt =====
-- The segmenter at a concrete text.
use praelector.Base.{◌&&◌, ◌||◌, leb}
use praelector.Base.Text.{Text, strip, codes}
use praelector.Jobs.Chunker.{pieces}
use praelector.Jobs.Chunker.Chunking.{IsChunking}
use praelector.Sentences.{Characters, segment}
use praelector.Sentences.Keeps.{texts, pieces-segment-IsChunking}
use praelector.Sentences.Split.{segment-IsSplit}
use praelector.Sentences.Trim.{IsSplit}
use praelector.Tests.Samples.{run_of}

-- What Unicode says of the first 128 characters.
abbrev ascii : Characters
ascii = record {
  isupper = λ c. leb 0x41 c && leb c 0x5a;
  isdigit = λ c. leb 0x30 c && leb c 0x39;
  isalnum = λ c. leb 0x41 c && leb c 0x5a || leb 0x61 c && leb c 0x7a || leb 0x30 c && leb c 0x39;
  casefold = λ t. t;
}

abbrev page : Text
page = codes "Ma ok. 5 lat. Tak!  Nie."

segment-IsSplit_example : IsSplit page 0 (segment ascii page)
segment-IsSplit_example = segment-IsSplit ascii page

pieces-segment-IsChunking_example :
    IsChunking 12
      (strip page)
      (pieces (λ text. texts (segment ascii text)) (run_of "Ma ok. 5 lat. Tak!  Nie.") 12)
pieces-segment-IsChunking_example =
    pieces-segment-IsChunking ascii (run_of "Ma ok. 5 lat. Tak!  Nie.") 12
