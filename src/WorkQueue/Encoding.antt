-- ===== src/WorkQueue/Encoding.antt =====
-- A text format for what the queue stores: the witnesses use it in place of serde_json's.
use Prim.Native.Char.{code}
use Prim.Native.String.{[], ◌∷◌, ◌++◌}
use text.Mathlib.TextLemmas.{cons-append, append_assoc, append-nil, nil-append}
use archipelago_xl.Base.{
  ℕ, zero, suc, String, ◌≡◌, refl, ap, sym, ◌∙◌, Option, none, some, ◌==◌, if◌then◌else◌,
}
use archipelago_xl.WorkQueue.Status.{
  Priority, high, normal, low, JobStatus, pending, running, success, failure, internal_error,
}
use archipelago_xl.WorkQueue.Redis.Memory.{memory}
use archipelago_xl.WorkQueue.Store.{JobDesc, JobResult, Claim, Codec, Services}

pub record Format (A : Type 0) : Type 0 where
  pub write : A → String
  pub read : String → Option (A × String)
  pub read-write : (a : A) (rest : String) → read (write a ++ rest) ≡ some (a, rest)

abbrev with_rest : {A B : Type 0} → (A → B) → Option (A × String) → Option (B × String)
with_rest f none = none
with_rest f (some (a, rest)) = some (f a, rest)

abbrev then_read : {A B : Type 0} → Option (A × String) → (A → String → Option B) → Option B
then_read none k = none
then_read (some (a, rest)) k = k a rest

-- a number is as many "1" and a "0"
abbrev write_ℕ : ℕ → String
write_ℕ zero = "0" ∷ []
write_ℕ (suc n) = "1" ∷ write_ℕ n

abbrev read_ℕ : String → Option (ℕ × String)
read_ℕ [] = none
read_ℕ (c ∷ s) = let more = read_ℕ s in if code c == 49 then with_rest suc more else some (0, s)

pub read-write_ℕ : (n : ℕ) (rest : String) → read_ℕ (write_ℕ n ++ rest) ≡ some (n, rest)
read-write_ℕ zero rest = ap read_ℕ (cons-append "0" [] rest ∙ ap (◌∷◌ "0") (nil-append rest))
read-write_ℕ (suc n) rest =
    ap read_ℕ (cons-append "1" (write_ℕ n) rest) ∙ ap (with_rest suc) (read-write_ℕ n rest)

-- a text has a "1" before each character, and a "0" at its end
abbrev write_text : String → String
write_text [] = "0" ∷ []
write_text (c ∷ s) = "1" ∷ c ∷ write_text s

abbrev read_text : String → Option (String × String)
read_text [] = none
read_text (c ∷ []) = some ([], [])
read_text (c ∷ d ∷ s) =
    let more = read_text s in if code c == 49 then with_rest (◌∷◌ d) more else some ([], d ∷ s)

read-zero : (rest : String) → read_text ("0" ∷ rest) ≡ some ([], rest)
read-zero [] = refl
read-zero (c ∷ s) = refl

pub read-write_text : (s rest : String) → read_text (write_text s ++ rest) ≡ some (s, rest)
read-write_text [] rest =
    ap read_text (cons-append "0" [] rest ∙ ap (◌∷◌ "0") (nil-append rest)) ∙ read-zero rest
read-write_text (c ∷ s) rest =
    ap read_text
      (cons-append "1" (c ∷ write_text s) rest ∙ ap (◌∷◌ "1") (cons-append c (write_text s) rest))
    ∙ ap (with_rest (◌∷◌ c)) (read-write_text s rest)

abbrev number : Format ℕ
number = record { write = write_ℕ; read = read_ℕ; read-write = read-write_ℕ }

abbrev words : Format String
words = record { write = write_text; read = read_text; read-write = read-write_text }

module _ {A B : Type 0} (f : Format A) (g : Format B) where
  abbrev second : A → String → Option ((A × B) × String)
  second a s = with_rest (λ b. (a, b)) (g.read s)

  abbrev both : Format (A × B)
  both = record {
    write = λ p. f.write (p.0) ++ g.write (p.1);
    read = λ s. then_read (f.read s) second;
    read-write = λ p rest.
        ap (λ s. then_read (f.read s) second) (append_assoc (f.write (p.0)) (g.write (p.1)) rest)
        ∙ ap (λ o. then_read o second) (f.read-write (p.0) (g.write (p.1) ++ rest))
        ∙ ap (with_rest (λ b. (p.0, b))) (g.read-write (p.1) rest);
  }

module _ {A B : Type 0} (f : Format A) (to : B → A) (of : A → B)
    (of-to : (b : B) → of (to b) ≡ b) where
  abbrev through : Format B
  through = record {
    write = λ b. f.write (to b);
    read = λ s. with_rest of (f.read s);
    read-write =
        λ b rest. ap (with_rest of) (f.read-write (to b) rest) ∙ ap (λ x. some (x, rest)) (of-to b);
  }

module _ {A : Type 0} (f : Format A) where
  abbrev text_of_option : Option A → String
  text_of_option none = write_ℕ 0
  text_of_option (some a) = write_ℕ 1 ++ f.write a

  abbrev of_tag : ℕ → String → Option (Option A × String)
  of_tag zero s = some (none, s)
  of_tag (suc n) s = with_rest some (f.read s)

  pub option-read :
      (o : Option A) (rest : String)
      → then_read (read_ℕ (text_of_option o ++ rest)) of_tag ≡ some (o, rest)
  option-read none rest = ap (λ o. then_read o of_tag) (read-write_ℕ 0 rest)
  option-read (some a) rest =
      ap (λ s. then_read (read_ℕ s) of_tag) (append_assoc (write_ℕ 1) (f.write a) rest)
      ∙ ap (λ o. then_read o of_tag) (read-write_ℕ 1 (f.write a ++ rest))
      ∙ ap (with_rest some) (f.read-write a rest)

  abbrev optional : Format (Option A)
  optional = record {
    write = text_of_option;
    read = λ s. then_read (read_ℕ s) of_tag;
    read-write = option-read;
  }

  abbrev whole : Option (A × String) → Option A
  whole none = none
  whole (some (a, rest)) = some a

  abbrev codec : Codec A
  codec = record {
    to_string = f.write;
    from_str = λ s. whole (f.read s);
    from_str-to_string = λ a.
        ap (λ s. whole (f.read s)) (sym (append-nil (f.write a))) ∙ ap whole (f.read-write a []);
  }

abbrev job_desc : Format (JobDesc String)
job_desc =
    through (both words (both number (both number (optional words))))
      (λ d. (d.params, (d.submitted_at, (d.deadline, d.partition))))
      (λ t. record {
        params = t.0;
        submitted_at = (t.1).0;
        deadline = ((t.1).1).0;
        partition = ((t.1).1).1;
      })
      (λ d. refl)

abbrev number_of_priority : Priority → ℕ
number_of_priority high = 0
number_of_priority normal = 1
number_of_priority low = 2

abbrev priority_of_number : ℕ → Priority
priority_of_number n = if n == 0 then high else if n == 1 then normal else low

pub priority_back : (p : Priority) → priority_of_number (number_of_priority p) ≡ p
priority_back high = refl
priority_back normal = refl
priority_back low = refl

abbrev claim_text : Format Claim
claim_text =
    through
      (both words (
        both (through number number_of_priority priority_of_number priority_back)
          (both words (both number (optional words)))))
      (λ c. (c.job_id, (c.priority, (c.worker_id, (c.time, c.partition)))))
      (λ t. record {
        job_id = t.0;
        priority = (t.1).0;
        worker_id = ((t.1).1).0;
        time = (((t.1).1).1).0;
        partition = (((t.1).1).1).1;
      })
      (λ c. refl)

abbrev number_of_status : JobStatus → ℕ
number_of_status pending = 0
number_of_status running = 1
number_of_status success = 2
number_of_status failure = 3
number_of_status internal_error = 4

abbrev status_of_number : ℕ → JobStatus
status_of_number n =
    if n == 0
    then pending
    else if n == 1
    then running
    else if n == 2
    then success
    else if n == 3
    then failure
    else internal_error

pub status_back : (s : JobStatus) → status_of_number (number_of_status s) ≡ s
status_back pending = refl
status_back running = refl
status_back success = refl
status_back failure = refl
status_back internal_error = refl

abbrev result_text : Format (JobResult String)
result_text =
    through (both (through number number_of_status status_of_number status_back) (optional words))
      (λ r. (r.status, r.result)) (λ t. record { status = t.0; result = t.1 }) (λ r. refl)

abbrev partition_of : Option (JobDesc String) → Option (Option String)
partition_of none = none
partition_of (some d) = some d.partition

-- the services of a queue of texts, on the least server
abbrev pub services : Services String String
services = record {
  redis = memory;
  desc = codec job_desc;
  claim = codec claim_text;
  result = codec result_text;
  read_partition = λ s. partition_of ((codec job_desc).from_str s);
  read_partition-to_string = λ d. ap partition_of ((codec job_desc).from_str-to_string d);
  u8_to_string = (codec number).to_string;
  parse_u8 = (codec number).from_str;
  parse_u8-to_string = λ n small. (codec number).from_str-to_string n;
}
