-- ===== src/Logger.antt =====
-- utilities/logger.cpp: the lines that are written. boost::format and the text of a number are
-- parameters, as is what strerror says of errno.
use distributed_server_clien.Prelude.Bytes.{Bytes, codes}
use distributed_server_clien.Prelude.{ℕ, List, [], ◌∷◌}

-- A line and where it goes: std::cout, std::cerr, or the log as an info or an error.
pub data Line : Type 0 where
  cout cerr info error : Bytes → Line

module _ (format : Bytes → List Bytes → Bytes) (to_text : ℕ → Bytes) where
  unfoldable pub server_discovery : Bytes → Bytes → ℕ → List Line
  server_discovery server_ip server_mcast_addr server_space =
      cout (
        format (codes "Found %1% (%2%) with free space %3%")
          (server_ip ∷ server_mcast_addr ∷ to_text server_space ∷ []))
      ∷ []

  unfoldable pub display_files_list : List Bytes → Bytes → List Line
  display_files_list [] source_ip = []
  display_files_list (file ∷ files) source_ip =
      cout (format (codes "%1% (%2%)") (file ∷ source_ip ∷ [])) ∷ display_files_list files source_ip

  -- A text that goes to std::cout and to the log.
  abbrev announced : Bytes → List Line
  announced text = cout text ∷ info text ∷ []

  unfoldable pub file_fetch_success : Bytes → Bytes → ℕ → List Line
  file_fetch_success filename server_ip server_port = announced (
      format (codes "File %1% downloaded (%2%:%3%)")
        (filename ∷ server_ip ∷ to_text server_port ∷ []))

  unfoldable pub file_fetch_failure : Bytes → Bytes → ℕ → Bytes → List Line
  file_fetch_failure filename server_ip server_port reason = announced (
      format (codes "File %1% downloading failed (%2%:%3%) %4%")
        (filename ∷ server_ip ∷ to_text server_port ∷ reason ∷ []))

  unfoldable pub file_too_big : Bytes → List Line
  file_too_big file = announced (format (codes "File %1% too big") (file ∷ []))

  unfoldable pub file_not_exist : Bytes → List Line
  file_not_exist file = announced (format (codes "File %1% does not exist") (file ∷ []))

  unfoldable pub file_upload_success : Bytes → Bytes → ℕ → List Line
  file_upload_success filename server_ip server_port = announced (
      format (codes "File %1% uploaded (%2%:%3%)")
        (filename ∷ server_ip ∷ to_text server_port ∷ []))

  unfoldable pub file_upload_failure : Bytes → Bytes → ℕ → Bytes → List Line
  file_upload_failure filename server_ip server_port reason = announced (
      format (codes "File %1% uploading failed (%2%:%3%) %4%")
        (filename ∷ server_ip ∷ to_text server_port ∷ reason ∷ []))

  unfoldable pub package_skipping : Bytes → ℕ → Bytes → List Line
  package_skipping source_ip source_port reason =
      let text =
        format (codes "[PCKG ERROR] Skipping invalid package from %1%:%2%. %3%")
          (source_ip ∷ to_text source_port ∷ reason ∷ []) in
      cerr text ∷ info text ∷ []

  unfoldable pub message_cout : Bytes → List Line
  message_cout message = cout message ∷ []

  unfoldable pub syserr : (ℕ → Bytes) → ℕ → Bytes → List Line
  syserr strerror errno msg =
      error (format (codes "ERROR: %1% %2% %3%") (msg ∷ to_text errno ∷ strerror errno ∷ [])) ∷ []
