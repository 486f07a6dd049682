-- ===== src/Llm/Client.antt =====
-- app/llm/__init__.py: the client of the language model.
use glacis.Base.{ℕ, ◌+◌, ◌*◌, Text}
use glacis.Core.Config.{Settings}

-- the parameters of `ChatAnthropic`; the time-out is in seconds
pub record ChatAnthropic : Type 0 where
  pub model : Text
  pub api_key : Text
  pub temperature : ℕ
  pub timeout : ℕ
  pub max_retries : ℕ

abbrev pub build_llm : Settings → ChatAnthropic
build_llm settings = record {
  model = settings.llm_model;
  api_key = settings.anthropic_api_key;
  temperature = 0;
  timeout = 30;
  max_retries = 2;
}

-- The longest that a call can take, in microseconds: the first attempt and the retries, each until
-- its time-out, with a pause of at most `backoff` seconds before each retry.
abbrev pub longest_call : ChatAnthropic → ℕ → ℕ
longest_call llm backoff =
    ((llm.max_retries + 1) * llm.timeout + llm.max_retries * backoff) * 1000000
