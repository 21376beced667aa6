-- ===== src/Lib.antt =====
-- A model of the core of the Beleqet API (src/modules and src/common; paths are relative to the root of
-- the repository): what it does with accounts, money, appointments, jobs, interviews and files and with
-- failing services; and of the portfolio builder of its web client.
--
-- The parts and their files:
-- - Base: shared names of the libraries, Boolean tests on numbers, lists, texts, signed integers, tables as
--   association lists, and the monad of a request. A request is a function from the state to an answer
--   or an HTTP exception and a new state: what was written before a throw stays written, and only a
--   `transaction` takes it back, as `$transaction` does.
-- - Marketplace: Tables has the rows of prisma/schema.prisma that the marketplace uses. Wallet is
--   src/modules/wallet/wallet.service.ts, Escrow src/modules/escrow/escrow.service.ts, Processor
--   src/modules/escrow/escrow.processor.ts (the jobs that Escrow queues), Freelance
--   src/modules/freelance/freelance.service.ts and Disputes
--   src/modules/dispute-manager/dispute-manager.service.ts. Each function has the name of the method it
--   models, in snake case; the parts of a long method are functions of their own. All of them work on
--   one database: Escrow locks an employer's money and queues a job, Processor spends or returns it,
--   Freelance makes the contract whose price Escrow asks for, and Wallet pays out what Processor
--   releases. Settlement is the life of one escrow under any sequence of queue jobs, Initiate and Stale
--   are about `initiate` (Stale: with a wallet that another request has changed since it was read), and
--   Payouts about the money of a milestone. HoldRelease is src/modules/wallet/wallet.processor.ts.
-- - Circuit: src/modules/video-interview/circuit-breaker.service.ts. A call is two steps, admission and
--   settlement, and `run` interleaves the steps of many calls.
-- - Availability: src/modules/interview-planner. Overlap is helpers/common-availability.helper.ts; Slots
--   is the service with its other helpers; Search is findEarliestAvailableSlot and autoScheduleInterview.
-- - Recurrence: src/common/filters/error-recurrence-tracker.service.ts.
-- - Budget: src/modules/resume-brain/ai-budget.service.ts, over an interface of Redis whose laws are
--   those of GET, TTL, INCRBY and EXPIRE; its tests fill the interface with a small store.
-- - Auth: accounts over one model of their tables (Tables). Sessions is login and the issue of tokens and
--   Credentials the recovery and change of passwords and addresses, both of
--   src/modules/auth/auth.service.ts; Linking is services/account-linking.service.ts and
--   repositories/account.repository.ts beside it; TwoFactor and BackupCodes are
--   src/modules/two-factor/two-factor.service.ts and backup-code.service.ts, and StepUp is
--   guards/step-up.guard.ts there. TwoFactor works over an interface of the store of used codes, whose
--   laws are those of Redis's SET with NX and PX; its tests fill it with a list of keys. Credentials asks
--   for the step-up tokens that TwoFactor signs and StepUp checks, and ends the sessions of Sessions.
-- - Kyc: src/modules/kyc/kyc.service.ts. A submission is checked first and stored later, and other steps
--   may come between.
-- - Applications: src/modules/applications/applications.service.ts. `submit` checks and stores, and
--   `store_application` is what may come later. Laws is about any sequence of requests, Changes about one.
-- - Payments: src/modules/payments/stripe.service.ts, with any order of webhooks.
-- - Video: src/modules/video-interview. Sessions is video-interview.service.ts and Processor
--   video-interview.processor.ts. The call of a model is two steps, between which any other request or
--   job may run, and passes through one of two circuits, which are those of Circuit. Once is about any
--   order of transcriptions, Deleted about a session after its deletion.
-- - Uploads: src/modules/uploads. Text has the string operations that uploads.service.ts uses, Keys the
--   validation of folders, keys and local paths, Files the requests that sign URLs, and Store those that
--   write to the storage or take from it, with serveLocalFile of uploads.controller.ts.
-- - Anomaly: src/modules/anomaly-sensor/anomaly-sensor.service.ts, the failed logins in memory: Window is
--   about the alerts, Bounds about the size. The reset after an alert is a step of its own.
-- - Jobs: src/modules/jobs/jobs.service.ts. Pages is the paging of findAll, Changes is about who changes
--   a job and what becomes of it.
-- - Plagiarism: src/modules/plagiarism. Ngrams is similarity/ngram.service.ts and Matches the comparison of
--   a text with one document in plagiarism.service.ts, with the similarity engine as a parameter.
-- - Portfolio: beleqet-jobs-nextjs/app/portfolio/portfolio, that is types/index.ts (Types),
--   utils/reorder.ts (Reorder), and utils/portfolio-state.ts and hooks/usePortfolioBuilder.ts (Builder).
--   A save is a request, and edits may come before its answer.
--
-- Numbers: identifiers, times (milliseconds) and amounts are natural numbers, which the DTOs' lower
-- bounds allow; the balances, which the database lets fall below zero, are integers. Math.round of a
-- tenth is (x + 5) / 10, exact for whole amounts below 2^31, the range of the columns. Arithmetic on the
-- columns is unbounded.
--
-- Fuel: only try_window of Search runs on fuel. Every round moves the start on by the duration, which is
-- positive, and a round is entered only while the start lies in the window, so that the length of the
-- window and one more is enough.
--
-- Parameters: bcrypt, the signatures of tokens, one-time passwords and the functions on texts; the store
-- of used codes; what Stripe, the uploads, the storage, the image library, the models of speech and
-- language and the identity provider answer; decodeURIComponent, path.resolve and the search of the
-- database, which ignores the case; the exchange rates and the
-- floating-point arithmetic on them, the answers of the payment gateway, the redaction of personal data,
-- the ids of new rows, and the clock.
--
-- Not modelled: log lines and texts of notifications; queries that only list rows; the strategies,
-- route guards and encryption of the authentication; PayPal; the providers of identity checks; ffmpeg and
-- the prompts of the video interviews; the public URLs of files; the alerts about unusual payments, which
-- are floating-point statistics; the other measures and the sources of the plagiarism check; the modules
-- for screening, feeds, search, chat and notifications; the web frontends but for the state of the
-- portfolio builder. A single database statement is atomic here; statements of other requests between
-- those of one request are modelled where a module says so (Stale, withdraw_from,
-- verify_backup_code_from, store_submission, store_application, the steps of Video and Anomaly).
pub mod Base
pub mod Marketplace
pub mod Circuit
pub mod Availability
pub mod Recurrence
pub mod Budget
pub mod Auth
pub mod Portfolio
pub mod Kyc
pub mod Payments
pub mod Applications
pub mod Video
pub mod Anomaly
pub mod Uploads
pub mod Jobs
pub mod Plagiarism
